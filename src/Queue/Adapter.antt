-- ===== src/Queue/Adapter.antt =====
-- libs/queue/bullmq.adapter.ts: the connections, the probe at the start, and the pool of queues.
pub mod Pool
pub mod Again
use async_long_request_proxy.Prelude.{
  ℕ, suc, String, Bool, true, false, Option, none, some, List, [], ◌∷◌, ◌++◌, map, ◌==◌,
  if◌then◌else◌,
}
use async_long_request_proxy.Result.{
  Error, connection_lost, cannot_connect, Result, ok, err, App, ◌>>=◌, Outcome, perform,
}
use async_long_request_proxy.Text.{Text}
use async_long_request_proxy.Redis.Connection.{
  RedisOptions, Connection, standalone, truthy_text, connect_cluster,
}
use async_long_request_proxy.Redis.Client.{is_true}
use async_long_request_proxy.Queue.{QueueJob, JobOptions, AddedJob, added}

pub record QueueConfig : Type 0 where
  pub host : Text
  pub port : ℕ
  pub password : Option Text
  pub db : Option ℕ
  pub cluster_mode : Option Bool
  pub cluster_nodes : Option Text

-- config.db ?? 0
abbrev pub db_or_zero : Option ℕ → ℕ
db_or_zero none = 0
db_or_zero (some n) = n

-- The options of a connection, with its limit on retries.
abbrev pub options_with : Option ℕ → QueueConfig → RedisOptions
options_with max_retries c = record {
  password = c.password;
  db = some (db_or_zero c.db);
  max_retries = max_retries;
}

unfoldable pub create_bull_mq_connection : QueueConfig → Result Connection
create_bull_mq_connection c =
    if is_true c.cluster_mode
    then connect_cluster (options_with none c) (truthy_text c.cluster_nodes)
    else ok (standalone c.host c.port (options_with none c))

-- The probe: the calls on its own client, in order, and which of them are answered.
pub data ProbeCall : Type 0 where
  connect ping quit : ProbeCall

pub record Answers : Type 0 where
  pub connects : Bool
  pub pings : Bool
  pub quits : Bool

-- The end of a try block, and its `finally`, whose own failure takes precedence.
abbrev pub finish : Bool → Bool → List ProbeCall → Result (Unit {0}) × List ProbeCall
finish reached quits calls = (
  if quits then (if reached then ok tt else err cannot_connect) else err connection_lost,
  calls ++ quit ∷ [],
)

abbrev pub probe_cluster : Answers → Result Connection → Result (Unit {0}) × List ProbeCall
probe_cluster a (err e) = (err e, [])
probe_cluster a (ok client) = finish a.pings a.quits (ping ∷ [])

abbrev pub probe_standalone : Answers → Result (Unit {0}) × List ProbeCall
probe_standalone a =
    if a.connects
    then finish a.pings a.quits (connect ∷ ping ∷ [])
    else finish false a.quits (connect ∷ [])

unfoldable pub on_module_init : QueueConfig → Answers → Result (Unit {0}) × List ProbeCall
on_module_init c a =
    if is_true c.cluster_mode
    then probe_cluster a (create_bull_mq_connection c)
    else probe_standalone a

-- A Redis client: the objects are numbered in the order in which they are made.
pub record OpenConnection : Type 0 where
  pub number : ℕ
  pub options : Connection

-- A BullMQ queue, with the client that it is given; queues are numbered like clients.
pub record Queue : Type 0 where
  pub number : ℕ
  pub name : String
  pub connection : OpenConnection
  pub remove_on_complete_age : ℕ
  pub remove_on_fail_count : ℕ

abbrev pub new_queue : ℕ → String → OpenConnection → Queue
new_queue number name connection = record {
  number = number;
  name = name;
  connection = connection;
  remove_on_complete_age = 3600;
  remove_on_fail_count = 100;
}

-- A job with the queue whose `add` it was given to.
pub record QueuedJob : Type 0 where
  pub queue : Queue
  pub added_job : AddedJob

-- The map `queues`, how many clients and queues have been made, which queues have been closed, and
-- the jobs of all queues.
pub record BullMqAdapter : Type 0 where
  pub queues : List (String × Queue)
  pub opened : ℕ
  pub made : ℕ
  pub closed : List ℕ
  pub jobs : List QueuedJob

abbrev pub new_adapter : BullMqAdapter
new_adapter = record { queues = []; opened = 0; made = 0; closed = []; jobs = [] }

unfoldable pub lookup : String → List (String × Queue) → Option Queue
lookup name [] = none
lookup name ((k, q) ∷ qs) = if k == name then some q else lookup name qs

-- Each call of createBullMqConnection makes another client.
abbrev pub open_connection : Result Connection → App BullMqAdapter OpenConnection
open_connection (err e) s = (err e, s)
open_connection (ok options) s =
    (ok (record { number = s.opened; options = options }), record s { opened = suc s.opened })

-- A queue that is made is put into the map under its name.
abbrev pub add_queue : String → OpenConnection → App BullMqAdapter Queue
add_queue name connection s =
    let queue = new_queue s.made name connection in
    (ok queue, record s { queues = s.queues ++ (name, queue) ∷ []; made = suc s.made })

abbrev pub make_queue : String → Result Connection → App BullMqAdapter Queue
make_queue name r = open_connection r >>= add_queue name

abbrev pub found_or_made : QueueConfig → String → Option Queue → App BullMqAdapter Queue
found_or_made c name (some queue) s = (ok queue, s)
found_or_made c name none s = make_queue name (create_bull_mq_connection c) s

unfoldable pub get_queue : QueueConfig → String → App BullMqAdapter Queue
get_queue c name s = found_or_made c name (lookup name s.queues) s

abbrev pub add_to : Queue → QueueJob → JobOptions → App BullMqAdapter Unit
add_to queue job options s = (
  ok tt,
  record s { jobs = s.jobs ++ record { queue = queue; added_job = added job options } ∷ [] },
)

-- queue.add of this queue, whose fate is an argument.
abbrev pub add_job : Outcome → Queue → QueueJob → JobOptions → App BullMqAdapter Unit
add_job fate queue job options = perform fate (add_to queue job options)

-- An error is logged and thrown again.
unfoldable pub enqueue_on :
    QueueConfig → String → Outcome → QueueJob → JobOptions → App BullMqAdapter Unit
enqueue_on c name fate job options = get_queue c name >>= λ queue. add_job fate queue job options

unfoldable pub on_module_destroy : App BullMqAdapter Unit
on_module_destroy s = (ok tt, record s { closed = s.closed ++ map (λ q. q.1.number) s.queues })
