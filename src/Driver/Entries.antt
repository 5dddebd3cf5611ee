-- ===== src/Driver/Entries.antt =====
-- src/driver.cpp, the entry of one request: while it is open, and when it is closed.
use thkvs.Base.{
  ℕ, ◌≡◌, ◌∙◌, Bool, true, false, none, some, lookup, assign, erase, lookup-assign, lookup-erase,
  assign-assign, erase-assign, arith,
}
use thkvs.Driver.{with_driver}
use thkvs.State.{Node, SyncEntry}

-- A status as the data thread sends it: 0 for success, 1 for failure.
abbrev pub code : Bool → ℕ
code false = 0
code true = 1

-- Failure if two of the three failed.
abbrev pub majority : Bool → Bool → Bool → Bool
majority true true c = true
majority false false c = false
majority _ _ c = c

abbrev pub pending : Node → ℕ → SyncEntry → Node
pending n id e = with_driver n (record (n.driver) { entries = assign id e n.driver.entries })

abbrev pub closed : Node → ℕ → Node
closed n id = with_driver n (record (n.driver) { entries = erase id n.driver.entries })

module _ (n : Node) (id : ℕ) where
  pub lookup-pending :
      (e e' : SyncEntry)
      → lookup id n.driver.entries ≡ some e
      → lookup id (pending n id e').driver.entries ≡ some e'
  lookup-pending e e' h = lookup-assign id id e' e n.driver.entries h ∙ ground arith

  pub lookup-closed : lookup id (closed n id).driver.entries ≡ none
  lookup-closed = lookup-erase id id n.driver.entries ∙ ground arith

  pub pending_twice : (e e' : SyncEntry) → pending (pending n id e) id e' ≡ pending n id e'
  pending_twice e e' = rw (assign-assign id e e' n.driver.entries)

  pub closed-pending : (e : SyncEntry) → closed (pending n id e) id ≡ closed n id
  closed-pending e = rw (erase-assign id e n.driver.entries)
