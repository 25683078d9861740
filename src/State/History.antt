-- ===== src/State/History.antt =====
-- What becomes of a receipt of `src/state-receipts.ts` over any calls of the gateway.
use quantpro_collector.Prelude.{
  ◌≡◌, refl, Bool, true, false, Option, none, some, String, str_eq, eq_iff, arith, if◌then◌else◌,
  Option-cases, inl, inr,
}
use quantpro_collector.Db.Table.{Table, lookup, lookup-insert}
use quantpro_collector.State.Receipts.{
  StateWriteReceipt, WriteRequest, Finish, Store, is_settled, update_row, insert_or_ignore,
  take_lease, end_lease, new_receipt, open_receipt, acquire_lease, close_receipt,
}

-- A receipt keeps its channel and payload, and once it is settled it is final.
abbrev pub Follows : Option StateWriteReceipt → Option StateWriteReceipt → Type 0
Follows none now = Unit
Follows (some r) none = ⊥
Follows (some r) (some q) =
    (q.channel ≡ r.channel)
    × (q.payload_sha256 ≡ r.payload_sha256)
    × (is_settled r.status ≡ true → q ≡ r)

-- A settled receipt has no lease.
abbrev pub IsUnleased : Option StateWriteReceipt → Type 0
IsUnleased none = Unit
IsUnleased (some r) = is_settled r.status ≡ true → r.lease_owner ≡ none

module _ {R : Type 0} where
  pub record History (before after : Store R) : Type 0 where
    pub follows : (key : String) → Follows (lookup key before.receipts) (lookup key after.receipts)
    pub unleased : (key : String) → IsUnleased (lookup key after.receipts)

module _ {V : Type 0} where
  abbrev pub mapped : (V → V) → Option V → Option V
  mapped f none = none
  mapped f (some r) = some (f r)

  abbrev pub or_new : V → Option V → Option V
  or_new r none = some r
  or_new r (some q) = some q

  pub lookup-update_row :
      (key wanted : String) (f : V → V) (t : Table V)
      → lookup wanted (update_row key f t)
        ≡ (if str_eq key wanted then mapped f (lookup wanted t) else lookup wanted t)
  unfolding update_row
  lookup-update_row key wanted f t = elim (Option-cases (lookup key t)) [
    | inl h ↦ ground (arith, h, eq_iff key wanted)
    | inr (r, h) ↦ ground (arith, h, eq_iff key wanted, lookup-insert key wanted (f r) t)
  ]

  pub lookup-insert_or_ignore :
      (key wanted : String) (r : V) (t : Table V)
      → lookup wanted (insert_or_ignore key r t)
        ≡ (if str_eq key wanted then or_new r (lookup wanted t) else lookup wanted t)
  unfolding insert_or_ignore
  lookup-insert_or_ignore key wanted r t = elim (Option-cases (lookup key t)) [
    | inl h ↦ ground (arith, h, eq_iff key wanted, lookup-insert key wanted r t)
    | inr (q, h) ↦ ground (arith, h, eq_iff key wanted)
  ]

pub insert_or_ignore_taken :
    {V : Type 0} (key : String) (v r : V) (t : Table V)
    → lookup key t ≡ some r
    → insert_or_ignore key v t ≡ t
unfolding insert_or_ignore
insert_or_ignore_taken key v r t h = rw (h, insert_or_ignore) refl

-- the rewriting of a row is allowed
abbrev Allowed : Option StateWriteReceipt → Option StateWriteReceipt → Type 0
Allowed x y = Follows x y × IsUnleased y

take_lease-Allowed :
    (q : WriteRequest) (r : StateWriteReceipt)
    → IsUnleased (some r)
    → Allowed (some r) (some (take_lease q r))
unfolding take_lease
take_lease-Allowed q r h = ground arith

end_lease-Allowed :
    (request_id : String) (f : Finish) (r : StateWriteReceipt)
    → IsUnleased (some r)
    → Allowed (some r) (some (end_lease request_id f r))
unfolding end_lease
end_lease-Allowed request_id f r h = ground arith

-- what a call does to the row under a key
if_Allowed :
    (b : Bool) (x y : Option StateWriteReceipt)
    → IsUnleased x
    → Allowed x y
    → Allowed x (if b then y else x)
if_Allowed true x y h a = a
if_Allowed false none y h a = (tt, tt)
if_Allowed false (some r) y h a = ((refl, refl, λ e. refl), h)

Follows-trans : (x y z : Option StateWriteReceipt) → Follows x y → Follows y z → Follows x z
Follows-trans none y z f g = tt
Follows-trans (some r) none z f g = absurd f
Follows-trans (some r) (some q) none f g = g
Follows-trans (some r) (some q) (some p) f g = ground arith

mapped-Allowed :
    (f : StateWriteReceipt → StateWriteReceipt)
    → ((r : StateWriteReceipt) → IsUnleased (some r) → Allowed (some r) (some (f r)))
    → (x : Option StateWriteReceipt) → IsUnleased x
    → Allowed x (mapped f x)
mapped-Allowed f h none u = (tt, tt)
mapped-Allowed f h (some r) u = h r u

new_Allowed :
    (q : WriteRequest) (x : Option StateWriteReceipt)
    → IsUnleased x
    → Allowed x (or_new (new_receipt q) x)
new_Allowed q none u = (tt, λ e. refl)
new_Allowed q (some r) u = ((refl, refl, λ e. refl), u)

module _ {R : Type 0} {before : Store R} where
  History-step :
      (f : Store R → Store R) (s : Store R)
      → ((key : String)
          → IsUnleased (lookup key s.receipts)
          → Allowed (lookup key s.receipts) (lookup key (f s).receipts))
      → History before s
      → History before (f s)
  History-step f s step h = record {
    follows = λ key.
        Follows-trans (lookup key before.receipts) (lookup key s.receipts)
          (lookup key (f s).receipts) (h.follows key) (step key (h.unleased key)).0;
    unleased = λ key. (step key (h.unleased key)).1;
  }

  pub History-open_receipt :
      (q : WriteRequest) (s : Store R) → History before s → History before (open_receipt q s)
  unfolding open_receipt
  History-open_receipt q s = History-step (open_receipt q) s λ key u.
      rw (lookup-insert_or_ignore q.write_key key (new_receipt q) s.receipts)
        (if_Allowed (str_eq q.write_key key) _ _ u (new_Allowed q _ u))

  pub History-acquire_lease :
      (q : WriteRequest) (s : Store R) → History before s → History before (acquire_lease q s)
  unfolding acquire_lease
  History-acquire_lease q s = History-step (acquire_lease q) s λ key u.
      rw (lookup-update_row q.write_key key (take_lease q) s.receipts) (
        if_Allowed (str_eq q.write_key key) _ _ u
          (mapped-Allowed (take_lease q) (take_lease-Allowed q) _ u))

  pub History-close_receipt :
      (write_key request_id : String) (f : Finish) (s : Store R)
      → History before s
      → History before (close_receipt write_key request_id f s)
  unfolding close_receipt
  History-close_receipt write_key request_id f s =
      History-step (close_receipt write_key request_id f) s λ key u.
        rw (lookup-update_row write_key key (end_lease request_id f) s.receipts) (
          if_Allowed (str_eq write_key key) _ _ u
            (mapped-Allowed (end_lease request_id f) (end_lease-Allowed request_id f) _ u))
