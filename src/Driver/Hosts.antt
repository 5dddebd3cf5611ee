-- ===== src/Driver/Hosts.antt =====
-- src/driver.cpp, `getHosts`.
use thkvs.Base.{
  ℕ, suc, ◌≤◌, ◌<◌, ◌≡◌, refl, ap, ◌∙◌, inl, inr, List, [], ◌∷◌, map, true, false, some, ◌>>=◌,
  elem, length, length-map, get_elem?, sym, Option, modify, ltb, Bool-cases, Text, add32, arith,
}
use thkvs.Crc.{get_crc}
use thkvs.Driver.{visit, count_host, get_hosts}
use thkvs.Ring.{owners, upper_bound, wrap, cycle, laps}
use thkvs.Ring.Count.{length-clockwise, length-upper_bound, clockwise-below}
use thkvs.Ring.Cycle.{cycle-until, until-map, until_inv}
use thkvs.Ring.Distinct.{
  add_new, add_all, first_hosts, until-first_hosts, first_hosts-IsDistinct, length-first_hosts,
  IsDistinct,
}
use thkvs.Ring.Succession.{clockwise, replicas}
use thkvs.Ring.Sorted.{OwnersBelow}
use thkvs.State.{Driver, Host, replica_n}

-- A host without its count.
abbrev pub address : Host → Text × Text × ℕ
address h = (h.hostname, h.ip, h.port)

abbrev pub addresses : List Host → List (Text × Text × ℕ)
addresses = map address

addresses-modify :
    (hosts : List Host) (i c : ℕ)
    → addresses (modify hosts i (λ h. record h { count = add32 h.count c })) ≡ addresses hosts
addresses-modify [] i c = refl
addresses-modify (h ∷ hosts) ℕ.zero c = refl
addresses-modify (h ∷ hosts) (suc i) c = ap (◌∷◌ (address h)) (addresses-modify hosts i c)

-- The counts have been made in bounds, of the same hosts.
abbrev Counted : List Host → Option (List Host) → Type 0
Counted hosts counted =
    (list : List Host) × (counted ≡ some list) × (addresses list ≡ addresses hosts)

get_elem?-below :
    (hosts : List Host) (i : ℕ) → i < length hosts → (h : Host) × (get_elem? hosts i ≡ some h)
get_elem?-below [] i l = absurd (omega arith)
get_elem?-below (h ∷ hosts) ℕ.zero l = (h, refl)
get_elem?-below (h ∷ hosts) (suc i) l = get_elem?-below hosts i (omega arith)

pub length-addresses :
    (list hosts : List Host) → addresses list ≡ addresses hosts → length list ≡ length hosts
length-addresses list hosts e =
    sym (length-map list address) ∙ ap length e ∙ length-map hosts address

visit-Counted :
    (hosts : List Host) (s : List ℕ × Option (List Host)) (x : ℕ)
    → x < length hosts
    → Counted hosts s.1
    → Counted hosts (visit s x).1
unfolding visit count_host
visit-Counted hosts (chosen, counted) x l (list, e, same) = elim (Bool-cases (elem x chosen)) [
  | inl k ↦ (list, rw (k, visit) e, same)
  | inr k ↦
      let (h, found) = get_elem?-below list x (omega (arith, length-addresses list hosts same)) in
      (
        modify list x (λ h. record h { count = add32 h.count 1 }),
        rw (k, visit, e, count_host, found) refl,
        addresses-modify list x 1 ∙ same,
      )
]

-- There are enough servers, and enough of them own a node, for every key to have its replicas.
pub record HasReplicas (d : Driver) : Type 0 where
  pub servers : replica_n ≤ length d.host_list
  pub on_ring : replica_n ≤ length (add_all [] (owners d.node_map))

module _ (d : Driver) (key : Text) where
  loop_runs :
      HasReplicas d
      → OwnersBelow (length d.host_list) d.node_map
      → (r : List ℕ × Option (List Host)) × (cycle
            (laps d.node_map)
            (λ s. ltb (length s.0) replica_n)
            visit
            d.node_map
            (wrap d.node_map (upper_bound (get_crc key) d.node_map))
            ([], some d.host_list)
          ≡ some r)
        × (r.0 ≡ replicas replica_n (get_crc key) d.node_map)
        × Counted d.host_list r.1
  unfolding replicas first_hosts
  loop_runs enough within =
      let m = d.node_map in
      let k : ℕ = get_crc key in
      let xs : List ℕ = clockwise k m in
      let some_there : replica_n ≤ length (add_all [] xs) =
        omega (arith, length-clockwise k m, enough.on_ring) in
      let straight = until-first_hosts replica_n [] xs (omega arith) some_there in
      let (r, run, chosen) =
        until-map (λ (s : List ℕ × Option (List Host)). s.0)
          (λ (h : List ℕ). ltb (length h) replica_n) visit add_new (unfold visit in λ s x. refl)
          ([], some d.host_list) xs (first_hosts replica_n xs) straight in
      (
        r,
        cycle-until (λ (s : List ℕ × Option (List Host)). ltb (length s.0) replica_n) visit (laps m)
            m (upper_bound k m) ([], some d.host_list) r (omega (arith, length-upper_bound k m))
            (unfold clockwise in run),
        chosen,
        until_inv (λ (s : List ℕ × Option (List Host)). Counted d.host_list s.1)
            (λ x. x < length d.host_list) (λ s. ltb (length s.0) replica_n) visit
            (visit-Counted d.host_list) ([], some d.host_list) r xs
            (clockwise-below (length d.host_list) k m within) (d.host_list, refl, refl) run,
      )

  -- With enough servers on the ring, all of which are in the list of hosts, `getHosts` returns, and
  -- with 0 and the first
  -- three different hosts clockwise from the key's hash; it changes nothing but the hosts' counts.
  pub get_hosts_lem :
      HasReplicas d
      → OwnersBelow (length d.host_list) d.node_map
      → (list : List Host) × (get_hosts d key
          ≡ some (0, replicas replica_n (get_crc key) d.node_map, record d { host_list = list }))
        × (addresses list ≡ addresses d.host_list)
  unfolding get_hosts
  get_hosts_lem enough within =
      let (r, run, chosen, (list, counted, same)) = loop_runs enough within in
      let few : ltb (length d.host_list) replica_n ≡ false = ground (arith, enough.servers) in
      (list, rw (few, get_hosts, run, ◌>>=◌, ← chosen, counted), same)

  -- With enough servers on the ring, all of which are in the list, `getHosts` returns 0 and three
  -- hosts, no two of them the same.
  pub get_hosts-IsDistinct :
      HasReplicas d
      → OwnersBelow (length d.host_list) d.node_map
      → (hosts : List ℕ) × (list : List Host) × (get_hosts d key
          ≡ some (0, hosts, record d { host_list = list }))
        × (length hosts ≡ replica_n)
        × IsDistinct hosts
  unfolding replicas
  get_hosts-IsDistinct enough within =
      let xs : List ℕ = clockwise (get_crc key) d.node_map in
      let (list, chosen, same) = get_hosts_lem enough within in
      (
        replicas replica_n (get_crc key) d.node_map,
        list,
        chosen,
        length-first_hosts replica_n xs
            (omega (arith, length-clockwise (get_crc key) d.node_map, enough.on_ring)),
        first_hosts-IsDistinct replica_n xs,
      )

  -- With fewer than three servers it returns 1 and no host.
  pub get_hosts_few : length d.host_list < replica_n → get_hosts d key ≡ some (1, [], d)
  unfolding get_hosts
  get_hosts_few few =
      let e : ltb (length d.host_list) replica_n ≡ true = ground arith in rw (e, get_hosts)
