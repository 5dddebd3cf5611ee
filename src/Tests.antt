-- ===== src/Tests.antt =====
-- Four servers on a small ring: the data that the tests share.
pub mod Requests
pub mod Servers
pub mod Leaving
pub mod Parts
pub mod Data
pub mod Served
pub mod Trees
pub mod Caches
pub mod Console
use thkvs.Base.{ℕ, refl, ◌≤◌, List, [], ◌∷◌, false, Text, codes, length, arith}
use thkvs.Ring.{NodeMap, owners}
use thkvs.Ring.Sorted.{IsSorted}
use thkvs.Driver.Hosts.{HasReplicas}
use thkvs.Driver.Requests.{IsServing}
use thkvs.State.{Node, Driver, Host, Job, j_put, j_get, new_worker, new_data, new_enable_flag_entry}
use thkvs.Ring.Distinct.{add_all}

abbrev pub ring : NodeMap
ring = (10, 0) ∷ (20, 1) ∷ (30, 2) ∷ (40, 3) ∷ (50, 0) ∷ []

abbrev pub host : Text → ℕ → Host
host name port = record { hostname = name; ip = codes "::1"; port = port; count = 0 }

abbrev pub four : List Host
four =
    host (codes "a") 8001
    ∷ host (codes "b") 8002
    ∷ host (codes "c") 8003
    ∷ host (codes "d") 8004
    ∷ []

abbrev pub serving_driver : Driver
serving_driver = record {
  node_map = ring;
  entries = [];
  host_list = four;
  localhost = host (codes "a") 8001;
  enable_flag_entry = new_enable_flag_entry;
  enable_flag = false;
  opid = 7;
  server_cnt = 0;
  enable_cnt = 0;
  move_cnt = 0;
}

abbrev pub server : Node
server = record {
  driver = serving_driver;
  worker = new_worker;
  store = new_data;
  recv_que = [];
  send_que = [];
}

abbrev pub job_put : Job
job_put = record { kind = j_put; id = 3; status = 0; key = codes "k"; value = codes "v" }

abbrev pub job_get : Job
job_get = record { kind = j_get; id = 3; status = 0; key = codes "k"; value = [] }

abbrev pub with_job : Node → Job → Node
with_job n j = record n { worker = record (n.worker) { job_que = j ∷ [] } }

pub ring-HasReplicas : HasReplicas serving_driver
unfolding add_all
ring-HasReplicas = record { servers = omega arith; on_ring = omega arith }

pub server-IsServing : IsServing server
server-IsServing = record {
  running = refl;
  enough = ring-HasReplicas;
  within = (omega arith, (omega arith, (omega arith, (omega arith, (omega arith, tt)))));
}

pub ring-IsSorted : IsSorted ring
ring-IsSorted = (omega arith, (omega arith, (omega arith, (omega arith, tt))))

pub four_there : 4 ≤ length (add_all [] (owners ring))
unfolding add_all
four_there = omega arith
