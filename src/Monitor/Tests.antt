-- ===== src/Monitor/Tests.antt =====
-- Two sessions log in with the monitor server as the chat server; the first leaves.
use iocpnet_module_mono_repo.Prelude.{
  ◌≡◌, ◌+◌, ◌%◌, ◌^◌, arith, length, refl, List, [], ◌∷◌, ◌++◌, true, none, some,
}
use iocpnet_module_mono_repo.Prelude.Assoc.{find, erase, put, none-some}
use iocpnet_module_mono_repo.Prelude.Memory.{read, copy_in}
use iocpnet_module_mono_repo.Packet.{
  SerializeBuffer, make, put_data, bytes_of, value_of, read_scalar, shr_word, shr_int,
}
use iocpnet_module_mono_repo.Frame.Receive.{none_set}
use iocpnet_module_mono_repo.Monitor.{MonitorData, MonitorServer, Locals, on_client_join}
use iocpnet_module_mono_repo.Monitor.Requests.{
  on_recv, content_proc, monitor_login, enter_client, is_server_no,
}
use iocpnet_module_mono_repo.Monitor.Samples.{
  empty_sample, take_samples, values_of, least, sum, Falls, take_samples-Falls,
}
use iocpnet_module_mono_repo.Monitor.Owners.{IsOwned}
use iocpnet_module_mono_repo.Monitor.Runs.{
  Event, join, leave, recv, tick, handle, run, AreNew, run-IsOwned,
}

abbrev fresh : SerializeBuffer
unfolding make
fresh = make (λ i. 0)

abbrev locals : Locals
locals = record {
  content_type = 0;
  server_no = 0;
  data_type = 0;
  data_value = 0;
  timestamp = 0;
  sessionkey = [];
  pooled_packet = fresh;
  monitor_key = [];
}

-- the login of server 10
abbrev login_packet : SerializeBuffer
unfolding put_data bytes_of
login_packet = (put_data (bytes_of 2 20001 ++ bytes_of 4 10) fresh).1

-- The constructor of the server enters a client of its own under the handle -1.
abbrev start : MonitorServer
start = record {
  waiting = [];
  blacklist = [];
  clients =
      (
        18446744073709551615,
        record { session_handle = 18446744073709551615; server_no = 40; sample_queue = [] },
      )
      ∷ [];
  client_content_queue = [];
  monitors = [];
  sessions_server_no = [];
  tps_accept_list = [];
  use_blacklist = true;
  update_tps = 0;
}

abbrev shift : List Event
shift =
    join 1000 5 100 80
    ∷ recv locals 5 login_packet
    ∷ join 1100 9 101 80
    ∷ recv locals 9 login_packet
    ∷ leave 5 none_set 100 80
    ∷ tick
    ∷ []

start-IsOwned : IsOwned start
unfolding find
start-IsOwned = record {
  apart = λ h w e. absurd (none-some w e);
  owner = λ n h e. absurd (none-some h e);
}

first_new : find 5 start.clients ≡ none
unfolding find
first_new = refl

second_new :
    find 9 (run (join 1000 5 100 80 ∷ recv locals 5 login_packet ∷ []) start).clients ≡ none
unfolding run handle on_client_join on_recv content_proc monitor_login enter_client is_server_no
    shr_word shr_int read_scalar value_of read copy_in find erase put bytes_of put_data make
second_new = refl

shift-AreNew : AreNew shift start
unfolding AreNew run
shift-AreNew = (first_new, (tt, (second_new, (tt, (tt, (tt, tt))))))

-- the first session is on record as the chat server
first_on_record :
    find 10 (run (join 1000 5 100 80 ∷ recv locals 5 login_packet ∷ []) start).sessions_server_no
    ≡ some 5
unfolding run handle on_client_join on_recv content_proc monitor_login enter_client is_server_no
    shr_word shr_int read_scalar value_of read copy_in find erase put bytes_of put_data make
first_on_record = refl

run-IsOwned_example : IsOwned (run shift start)
run-IsOwned_example = run-IsOwned shift start shift-AreNew start-IsOwned

-- three values that fall, of type 1
abbrev falling : List MonitorData
falling =
    record { data_type = 1; value = 30 }
    ∷ record { data_type = 1; value = 20 }
    ∷ record { data_type = 1; value = 10 }
    ∷ []

take_samples-Falls_example :
    let after = take_samples falling (λ i. empty_sample) 1 in
    let vs = values_of 1 falling in
    (after.min_up ≡ least empty_sample.min_up vs)
    × (after.total ≡ (empty_sample.total + sum vs) % 2 ^ 32)
    × (after.count ≡ (empty_sample.count + length vs) % 2 ^ 32)
    × (Falls empty_sample.min_up vs → after.max_up ≡ empty_sample.max_up)
take_samples-Falls_example =
    take_samples-Falls 1 falling (λ i. empty_sample) (omega arith) (omega arith)
