-- ===== src/Stack/Tests.antt =====
-- One push on an empty stack, access by access.
use iocpnet_module_mono_repo.Prelude.{ℕ, ◌≡◌, refl, [], arith}
use iocpnet_module_mono_repo.Stack.{
  Machine, in_pool, idle, push_start, push_read, set_count, assign, step, move, push, go,
}
use iocpnet_module_mono_repo.Stack.Invariant.{Holds}
use iocpnet_module_mono_repo.Stack.Steps.{read_top, link}
use iocpnet_module_mono_repo.Stack.Ends.{start_push}
use iocpnet_module_mono_repo.Stack.Moves.{Result, move_lem}

abbrev unused : Machine
unused = record {
  top = 0;
  next = λ a. 0;
  data_of = λ a. 0;
  alloc_cnt = 0;
  phase = λ t. idle;
  owner = λ a. in_pool;
}

unused-Holds : Holds unused []
unused-Holds = record {
  chain = refl;
  words = tt;
  apart = tt;
  local = λ t. tt;
  unseen = λ t u e. refl;
}

-- thread 3 pushes 9 with the node at 64
abbrev started : Machine
unfolding move
started = move 3 (push 9 64) unused

abbrev word : ℕ
unfolding set_count
word = set_count 64 1

started-Holds : Holds started []
unfolding started
started-Holds =
    start_push 3 unused [] 9 64 unused-Holds refl (omega arith) (omega arith) (omega arith)

abbrev has_read : Machine
unfolding step
has_read = step 3 (push_start 64 word) started

has_read-Holds : Holds has_read []
unfolding has_read started word move assign
has_read-Holds = read_top 3 started [] started-Holds 64 word refl

abbrev has_linked : Machine
unfolding step
has_linked = step 3 (push_read 64 word 0) has_read

has_linked-Holds : Holds has_linked []
unfolding has_linked has_read started word move step assign
has_linked-Holds = link 3 has_read [] has_read-Holds 64 word 0 refl

-- the exchange succeeds
move_example : Result 3 has_linked (move 3 go has_linked) []
move_example = move_lem 3 go has_linked [] tt has_linked-Holds

new_top : (move 3 go has_linked).top ≡ word
unfolding has_linked has_read started word move step assign
new_top = refl
