-- ===== src/Tests/Leaving.antt =====
-- A server that leaves four servers: the theorems on its moves at one input each.
use thkvs.Base.{◌≡◌, ◌⊎◌, refl, [], ◌∷◌, some, codes, arith}
use thkvs.Membership.{host_id}
use thkvs.Membership.Around.{Arc}
use thkvs.Membership.Copies.{Leaving, Stays, Copies, remove_arc_copies}
use thkvs.Ring.{NodeMap}
use thkvs.Tests.{four, ring, server, server-IsServing, ring-IsSorted, four_there}

server-Leaving : Leaving server
server-Leaving = record {
  sorted = ring-IsSorted;
  within = server-IsServing.within;
  enough = four_there;
}

abbrev past_ten : NodeMap
past_ten = (20, 1) ∷ (30, 2) ∷ (40, 3) ∷ (50, 0) ∷ []

arc_of_ten : Arc ring past_ten 12
arc_of_ten = record {
  pre = [];
  first = 10;
  owner = 0;
  cut = refl;
  from = omega arith;
  to = (omega arith, (omega arith, (omega arith, (omega arith, tt))));
}

remove_arc_copies_example :
    Stays server 2 server-Leaving past_ten 12 arc_of_ten 10 20
    ⊎ Copies server 2 server-Leaving past_ten 12 arc_of_ten 10 20
remove_arc_copies_example = remove_arc_copies server 2 server-Leaving past_ten 12 arc_of_ten 10 20

c_found : host_id (codes "c") 0 four ≡ some 2
unfolding host_id
c_found = refl
