-- ===== src/Content/Moved.antt =====
-- Which contents of IOCPNetLib/NetLib_Content.cpp take payloads of a session while
-- NetLib_Server::Move_Content moves it.
use iocpnet_module_mono_repo.Prelude.{
  [], ◌∷◌, ℕ, ◌+◌, ◌<◌, ◌≡◌, refl, sym, ap, subst, ◌∙◌, arith, Bool, true, false, not, ◌&&◌, ◌||◌,
  Option, none, some, ◌==◌, eq→==, inl, inr, Bool-cases, ==→eq,
}
use iocpnet_module_mono_repo.Prelude.Assoc.{find, find-erase_self, find-put_self}
use iocpnet_module_mono_repo.Content.Messages.{
  World, NetLibContent, ContentMsg, msg_enter, msg_leave, post, move_content, handle_msg, next_msg,
  put_content,
}
use iocpnet_module_mono_repo.Content.Handoff.{
  Stays, move_content-posts, handle-leave, handle-enter, is_some, is_listed, is_reading,
}

listed-leave :
    (c k h n : ℕ) (moving : Bool) (o : Option ℕ) (w : World)
    → Stays k h n moving o w
    → (i : ℕ) → is_listed h i (handle_msg c (msg_leave k) w) ≡ not (i == c) && is_listed h i w
listed-leave c k h n moving o w st i =
    let (_, erased, others) = handle-leave c k h n moving o w st in
    elim (Bool-cases (i == c)) [
      | inl e ↦
          let gone : find h ((handle_msg c (msg_leave k) w).contents c).sessions ≡ none =
            ap (find h) erased ∙ find-erase_self h (w.contents c).sessions in
          subst
            (λ j. is_listed h j (handle_msg c (msg_leave k) w) ≡ not (j == c) && is_listed h j w)
            (sym (==→eq i c e)) (ap is_some gone ∙ rw (eq→== c c refl) refl)
      | inr e ↦ ap (λ n. is_some (find h n.sessions)) (others i e) ∙ rw e refl
    ]

listed-enter :
    (c k h n : ℕ) (moving : Bool) (o : Option ℕ) (w : World)
    → Stays k h (n + 1) moving o w
    → 0 < n
    → n < 255
    → (i : ℕ) → is_listed h i (handle_msg c (msg_enter k) w) ≡ (i == c) || is_listed h i w
listed-enter c k h n moving o w st more few i =
    let (_, added, _, others) = handle-enter c k h n moving o w st more few in
    elim (Bool-cases (i == c)) [
      | inl e ↦
          let there : find h ((handle_msg c (msg_enter k) w).contents c).sessions ≡ some k =
            ap (find h) added ∙ find-put_self h k (w.contents c).sessions in
          subst (λ j. is_listed h j (handle_msg c (msg_enter k) w) ≡ (j == c) || is_listed h j w)
            (sym (==→eq i c e)) (ap is_some there ∙ rw (eq→== c c refl) refl)
      | inr e ↦ ap (λ n. is_some (find h n.sessions)) (others i e) ∙ rw e refl
    ]

-- posts change no table
table-post :
    (c : ℕ) (m : ContentMsg) (contents : ℕ → NetLibContent) (i : ℕ)
    → (post c m contents i).sessions ≡ (contents i).sessions
table-post c m contents i = elim (Bool-cases (i == c)) [
  | inl e ↦ rw e (ap (λ j. (contents j).sessions) (sym (==→eq i c e)))
  | inr e ↦ rw e refl
]

listed-posts :
    (a b k h : ℕ) (w w' : World)
    → w'.contents ≡ post b (msg_enter k) (post a (msg_leave k) w.contents)
    → (i : ℕ) → is_listed h i w' ≡ is_listed h i w
listed-posts a b k h w w' e i =
    let tables : (w'.contents i).sessions ≡ (w.contents i).sessions =
      ap (λ f. (f i).sessions) e
      ∙ table-post b (msg_enter k) (post a (msg_leave k) w.contents) i
      ∙ table-post a (msg_leave k) w.contents i in
    ap (λ t. is_some (find h t)) tables

reading-Stays :
    (k h n : ℕ) (moving : Bool) (o : Option ℕ) (w : World)
    → Stays k h n moving o w
    → (i : ℕ) → is_reading k w i ≡ is_listed h i w && not moving
reading-Stays k h n moving o w st i = rw (st.named, st.flag) refl

-- What the tables say after the two messages, in either order.
none_left : (x : Bool) → (not x && x) && true ≡ false
none_left true = refl
none_left false = refl

hidden : (x : Bool) → x && false ≡ false
hidden true = refl
hidden false = refl

only_entered : (x y : Bool) → (x || (not y && y)) && true ≡ x
only_entered true y = refl
only_entered false y = none_left y

only_other :
    (i a b : ℕ) → (a == b) ≡ false → (not (i == a) && ((i == b) || (i == a))) && true ≡ (i == b)
only_other i a b apart = ground arith

-- A session of the content `a` that only `a` has in its table is moved to `b`: `a` is sent a leave
-- and `b` an enter. From then on no content takes payloads of it, and
-- still none after either content has handled the message for it; once both have, in either order,
-- `b` takes payloads of it and no other, and the count of its users is what it was.
pub handoff :
    (a b key k h n : ℕ) (w : World)
    → Stays k h n false (some a) w
    → 0 < n
    → n < 255
    → (a == b) ≡ false
    → ((i : ℕ) → is_listed h i w ≡ (i == a))
    → let w1 = (move_content (some b) h key w).1 in
      let left = handle_msg a (msg_leave k) w1 in
      let entered = handle_msg b (msg_enter k) w1 in
      let left_first = handle_msg b (msg_enter k) left in
      let entered_first = handle_msg a (msg_leave k) entered in
      (w1.contents ≡ post b (msg_enter k) (post a (msg_leave k) w.contents))
      × ((i : ℕ) → is_reading k w1 i ≡ false)
      × ((i : ℕ) → is_reading k left i ≡ false)
      × ((i : ℕ) → is_reading k entered i ≡ false)
      × ((i : ℕ) → is_reading k left_first i ≡ (i == b))
      × ((i : ℕ) → is_reading k entered_first i ≡ (i == b))
      × ((left_first.server.sessions k).io_count ≡ n)
      × ((entered_first.server.sessions k).io_count ≡ n)
handoff a b key k h n w st more few apart only =
    let (_, s1, posts) = move_content-posts a b key k h n false w st few apart in
    let w1 : World = (move_content (some b) h key w).1 in
    let left : World = handle_msg a (msg_leave k) w1 in
    let entered : World = handle_msg b (msg_enter k) w1 in
    let (sl, _, _) = handle-leave a k h (n + 1) true (some b) w1 s1 in
    let (se, _, _, _) = handle-enter b k h n true (some b) w1 s1 more few in
    let (sle, _, _, _) = handle-enter b k h n false (some b) left sl more few in
    let (sel, _, _) = handle-leave a k h n true (some b) entered se in
    let l1 : (i : ℕ) → is_listed h i w1 ≡ (i == a) =
      λ i. listed-posts a b k h w w1 posts i ∙ only i in
    let ll : (i : ℕ) → is_listed h i left ≡ not (i == a) && (i == a) =
      λ i. listed-leave a k h (n + 1) true (some b) w1 s1 i ∙ ap (λ t. not (i == a) && t) (l1 i) in
    let le : (i : ℕ) → is_listed h i entered ≡ (i == b) || (i == a) =
      λ i. listed-enter b k h n true (some b) w1 s1 more few i ∙ ap (λ t. (i == b) || t) (l1 i) in
    let lle = λ (i : ℕ).
      listed-enter b k h n false (some b) left sl more few i ∙ ap (λ t. (i == b) || t) (ll i) in
    let lel = λ (i : ℕ).
      listed-leave a k h n true (some b) entered se i ∙ ap (λ t. not (i == a) && t) (le i) in
    (
      posts,
      (λ i. reading-Stays k h (n + 1) true (some b) w1 s1 i ∙ hidden (is_listed h i w1)),
      (λ i.
          reading-Stays k h (n + 1) false (some b) left sl i
          ∙ ap (λ t. t && true) (ll i)
          ∙ none_left (i == a)),
      (λ i. reading-Stays k h n true (some b) entered se i ∙ hidden (is_listed h i entered)),
      (λ i.
          reading-Stays k h n false (some b) (handle_msg b (msg_enter k) left) sle i
          ∙ ap (λ t. t && true) (lle i)
          ∙ only_entered (i == b) (i == a)),
      (λ i.
          reading-Stays k h n false (some b) (handle_msg a (msg_leave k) entered) sel i
          ∙ ap (λ t. t && true) (lel i)
          ∙ only_other i a b apart),
      sle.counted,
      sel.counted,
    )

-- the world once the content has taken its only message
abbrev pub taken_last : ℕ → World → World
taken_last b w = record w {
  contents = put_content b (record (w.contents b) { msg_queue = [] }) w.contents;
}

taken_last-Stays :
    (b k h n : ℕ) (moving : Bool) (o : Option ℕ) (w : World)
    → Stays k h n moving o w
    → Stays k h n moving o (taken_last b w)
taken_last-Stays b k h n moving o w st = record {
  here = st.here;
  place = st.place;
  named = st.named;
  counted = st.counted;
  flag = st.flag;
  belongs = st.belongs;
}

-- the one message of a content that had none before
only_message :
    (a b k : ℕ) (w w1 : World)
    → (a == b) ≡ false
    → (w.contents b).msg_queue ≡ []
    → w1.contents ≡ post b (msg_enter k) (post a (msg_leave k) w.contents)
    → (w1.contents b).msg_queue ≡ msg_enter k ∷ []
only_message a b k w w1 apart none_before posts =
    let other : (b == a) ≡ false = ground arith in
    ap (λ f. (f b).msg_queue) posts ∙ rw (eq→== b b refl, other, none_before) refl

-- A session is moved from `a` to `b`, whose queue is empty; `b` handles the enter before `a` handles
-- the leave, finds no further message and goes on to its sessions. Then the session is moved on to
-- `c`, `a` handles its leave and `c` its enter: now both `b`, which looks at its messages only in its
-- next round, and `c` take payloads of the session.
pub moved_twice :
    (a b c key k h n : ℕ) (w : World)
    → Stays k h n false (some a) w
    → 0 < n
    → n < 255
    → (a == b) ≡ false
    → (b == c) ≡ false
    → (w.contents b).msg_queue ≡ []
    → let w1 = (move_content (some b) h key w).1 in
      let entered = handle_msg b (msg_enter k) (taken_last b w1) in
      let w2 = (move_content (some c) h key entered).1 in
      let last = handle_msg c (msg_enter k) (handle_msg a (msg_leave k) w2) in
      (w1.contents ≡ post b (msg_enter k) (post a (msg_leave k) w.contents))
      × (next_msg b w1 ≡ some entered)
      × (next_msg b entered ≡ none)
      × (w2.contents ≡ post c (msg_enter k) (post b (msg_leave k) entered.contents))
      × (is_reading k last b ≡ true)
      × (is_reading k last c ≡ true)
unfolding next_msg
moved_twice a b c key k h n w st more few ab bc idle =
    let (_, s1, p1) = move_content-posts a b key k h n false w st few ab in
    let w1 : World = (move_content (some b) h key w).1 in
    let one : (w1.contents b).msg_queue ≡ msg_enter k ∷ [] = only_message a b k w w1 ab idle p1 in
    let popped : World = taken_last b w1 in
    let sp = taken_last-Stays b k h (n + 1) true (some b) w1 s1 in
    let entered : World = handle_msg b (msg_enter k) popped in
    let (se, _, queue, _) = handle-enter b k h n true (some b) popped sp more few in
    let empty : (entered.contents b).msg_queue ≡ [] = queue ∙ rw (eq→== b b refl) refl in
    let (_, s2, p2) = move_content-posts b c key k h n true entered se few bc in
    let w2 : World = (move_content (some c) h key entered).1 in
    let left : World = handle_msg a (msg_leave k) w2 in
    let (sl, _, _) = handle-leave a k h (n + 1) true (some c) w2 s2 in
    let last : World = handle_msg c (msg_enter k) left in
    let (sc, _, _, _) = handle-enter c k h n false (some c) left sl more few in
    let other : (b == a) ≡ false = ground arith in
    let in_entered : is_listed h b entered ≡ true =
      listed-enter b k h n true (some b) popped sp more few b ∙ rw (eq→== b b refl) refl in
    let in_left : is_listed h b left ≡ true =
      listed-leave a k h (n + 1) true (some c) w2 s2 b
      ∙ rw (other, listed-posts b c k h entered w2 p2 b, in_entered) refl in
    let in_last = listed-enter c k h n false (some c) left sl more few in
    let in_b : is_listed h b last ≡ true = in_last b ∙ rw (bc, in_left) refl in
    let in_c : is_listed h c last ≡ true = in_last c ∙ rw (eq→== c c refl) refl in
    (
      p1,
      rw (next_msg, one) refl,
      rw (next_msg, empty) refl,
      p2,
      reading-Stays k h n false (some c) last sc b ∙ ap (λ t. t && true) in_b,
      reading-Stays k h n false (some c) last sc c ∙ ap (λ t. t && true) in_c,
    )
