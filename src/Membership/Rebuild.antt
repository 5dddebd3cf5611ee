-- ===== src/Membership/Rebuild.antt =====
-- src/driver.cpp, the ring after any history of `actAddServer` and `actRemoveServer`.
use mathlib.Core.List.{map-append, append-nil}
use thkvs.Base.{
  ℕ, suc, ◌+◌, ◌≡◌, refl, sym, ap, ◌∙◌, List, [], ◌∷◌, ◌++◌, false, All, length, length-map, Text,
  text_eq, text_eq_iff, arith,
}
use thkvs.Driver.{hostnames, with_driver, new}
use thkvs.Membership.{act_add_server, act_remove_server, other_hosts}
use thkvs.Ring.{NodeMap, add_nodes, add_hosts}
use thkvs.Ring.Sorted.{IsSorted, OwnersBelow, add_hosts-IsSorted, add_hosts-OwnersBelow}
use thkvs.State.{Node, Driver, Host}

add_hosts-append :
    (i : ℕ) (xs ys : List Text) (m : NodeMap)
    → add_hosts i (xs ++ ys) m ≡ add_hosts (i + length xs) ys (add_hosts i xs m)
unfolding add_hosts
add_hosts-append i [] ys m = let e : i + 0 ≡ i = omega arith in rw e
add_hosts-append i (x ∷ xs) ys m =
    let e : i + suc (length xs) ≡ i + 1 + length xs = omega arith in
    rw e (add_hosts-append (i + 1) xs ys (add_nodes x i m))

add_hosts_one : (i : ℕ) (name : Text) (m : NodeMap) → add_hosts i (name ∷ []) m ≡ add_nodes name i m
unfolding add_hosts
add_hosts_one i name m = refl

abbrev pub IsBuilt : Driver → Type 0
IsBuilt d = d.node_map ≡ add_hosts 0 (hostnames d.host_list) []

new-IsBuilt : (localhost : Host) (hosts : List Host) → IsBuilt (new localhost hosts)
unfolding new
new-IsBuilt localhost hosts = refl

act_add_server-IsBuilt :
    (n : Node) (hostname ip : Text) (port : ℕ)
    → IsBuilt n.driver
    → IsBuilt (act_add_server n hostname ip port).driver
unfolding act_add_server
act_add_server-IsBuilt n hostname ip port b =
    let hosts = n.driver.host_list in
    let h : Host = record { hostname = hostname; ip = ip; port = port; count = 0 } in
    let i : length (hostnames hosts) ≡ length hosts = length-map hosts (λ h. h.hostname) in
    ap (add_nodes hostname (length hosts)) b
    ∙ sym (add_hosts_one (length hosts) hostname (add_hosts 0 (hostnames hosts) []))
    ∙ ap (λ k. add_hosts k (hostname ∷ []) (add_hosts 0 (hostnames hosts) [])) (sym i ∙ omega arith)
    ∙ sym (add_hosts-append 0 (hostnames hosts) (hostname ∷ []) [])
    ∙ ap (λ names. add_hosts 0 names [])
        (sym (map-append (λ (h : Host). h.hostname) hosts (h ∷ [])))

act_remove_server-IsBuilt :
    (n : Node) (hostname : Text) → IsBuilt (act_remove_server n hostname).driver
unfolding act_remove_server
act_remove_server-IsBuilt n hostname = refl

-- A change of the servers, as each server applies it.
pub data Change : Type 0 where
  join : Text → Text → ℕ → Change
  leave : Text → Change

unfoldable pub apply : Node → Change → Node
unfolding act_add_server act_remove_server
apply n (join hostname ip port) = act_add_server n hostname ip port
apply n (leave hostname) = act_remove_server n hostname

unfoldable pub apply_all : Node → List Change → Node
unfolding apply
apply_all n [] = n
apply_all n (c ∷ cs) = apply_all (apply n c) cs

apply-IsBuilt : (n : Node) (c : Change) → IsBuilt n.driver → IsBuilt (apply n c).driver
unfolding apply
apply-IsBuilt n (join hostname ip port) b = act_add_server-IsBuilt n hostname ip port b
apply-IsBuilt n (leave hostname) b = act_remove_server-IsBuilt n hostname

apply_all-IsBuilt :
    (n : Node) (cs : List Change) → IsBuilt n.driver → IsBuilt (apply_all n cs).driver
unfolding apply_all
apply_all-IsBuilt n [] b = b
apply_all-IsBuilt n (c ∷ cs) b = apply_all-IsBuilt (apply n c) cs (apply-IsBuilt n c b)

-- After any history of joins and leaves, from the state that the constructor builds, the ring is the
-- one that the constructor builds from the host list that is left; its nodes ascend, and each belongs
-- to a host of the list.
pub history_ring :
    (n : Node) (localhost : Host) (hosts : List Host) (cs : List Change)
    → n.driver ≡ new localhost hosts
    → let d = (apply_all n cs).driver in
      (d.node_map ≡ (new localhost d.host_list).node_map)
      × IsSorted d.node_map
      × OwnersBelow (length d.host_list) d.node_map
unfolding new
history_ring n localhost hosts cs start =
    let d = (apply_all n cs).driver in
    let built : IsBuilt d = apply_all-IsBuilt n cs (rw start (new-IsBuilt localhost hosts)) in
    let names = hostnames d.host_list in
    (
      built,
      rw built (add_hosts-IsSorted 0 names [] tt),
      rw built (
          add_hosts-OwnersBelow 0 (length d.host_list) names []
            (omega (arith, length-map d.host_list (λ (h : Host). h.hostname))) tt),
    )

other_hosts-append :
    (name : Text) (xs ys : List Host)
    → other_hosts name (xs ++ ys) ≡ other_hosts name xs ++ other_hosts name ys
unfolding other_hosts
other_hosts-append name [] ys = refl
other_hosts-append name (x ∷ xs) ys = ground (arith, other_hosts-append name xs ys)

other_hosts_absent :
    (name : Text) (hosts : List Host)
    → All (λ h. text_eq h.hostname name ≡ false) hosts
    → other_hosts name hosts ≡ hosts
unfolding other_hosts
other_hosts_absent name [] a = refl
other_hosts_absent name (x ∷ xs) a = rw a.0 (ap (◌∷◌ x) (other_hosts_absent name xs a.1))

other_hosts_self : (h : Host) → other_hosts h.hostname (h ∷ []) ≡ []
unfolding other_hosts
other_hosts_self h = let e = (text_eq_iff h.hostname h.hostname).1 refl in rw e

-- If the ring is the one of the host list, a server that joins under a name of its own and leaves
-- again leaves the state as it was.
pub join_leave :
    (n : Node) (hostname ip : Text) (port : ℕ)
    → IsBuilt n.driver
    → All (λ h. text_eq h.hostname hostname ≡ false) n.driver.host_list
    → act_remove_server (act_add_server n hostname ip port) hostname ≡ n
unfolding act_remove_server act_add_server
join_leave n hostname ip port built fresh =
    let hosts = n.driver.host_list in
    let h : Host = record { hostname = hostname; ip = ip; port = port; count = 0 } in
    let e : other_hosts hostname (hosts ++ h ∷ []) ≡ hosts =
      other_hosts-append hostname hosts (h ∷ [])
      ∙ rw (other_hosts_absent hostname hosts fresh, other_hosts_self h) (append-nil hosts) in
    ap
      (λ list.
        with_driver n
          (record (n.driver) { host_list = list; node_map = add_hosts 0 (hostnames list) [] }))
      e
    ∙ ap (λ m. with_driver n (record (n.driver) { node_map = m })) (sym built)
