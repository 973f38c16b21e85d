-- ===== src/Scheduling/Reserved.antt =====
-- mergeReservations of internal/scheduling/scheduler.go: what is reserved is in flight, and is not
-- offered a second time.
use evalfrog.Prelude.{
  ℕ, String, ◌≡◌, refl, subst, Bool, true, false, not, ◌||◌, List, [], ◌∷◌, ◌++◌, ◌==◌, inl, inr,
  arith, eq_iff, eq_refl, contains, filter, Bool-cases, All, All-map,
}
use evalfrog.Scheduling.{Candidate, Inflight, AuthoritySnapshot}
use evalfrog.Scheduling.Merge.{
  Reservation, Merging, attempts_of, lanes_of, merge_one, merge_all, merge_reservations,
}

unfoldable pub offers : List Candidate → String → Bool
offers [] node_run_id = false
offers (candidate ∷ rest) node_run_id =
    node_run_id == candidate.node_run_id || offers rest node_run_id

attempts_of-append :
    (list : List Inflight) (value : Inflight) (id : String)
    → contains (attempts_of (list ++ value ∷ [])) id
      ≡ (contains (attempts_of list) id || id == value.attempt_id)
unfolding attempts_of contains
attempts_of-append [] value id = ground arith
attempts_of-append (first ∷ rest) value id = ground (arith, attempts_of-append rest value id)

-- an attempt that was seen is in flight
abbrev SeenAreInflight : Merging → Type 0
SeenAreInflight m =
    (id : String) → contains m.seen_attempts id ≡ true → contains (attempts_of m.inflight) id ≡ true

entry_of : Reservation → Inflight
entry_of r = record {
  attempt_id = r.attempt_id;
  project_id = r.project_id;
  resource_class = r.resource_class;
}

merge_one-SeenAreInflight :
    (r : Reservation) (m : Merging) → SeenAreInflight m → SeenAreInflight (merge_one r m)
unfolding merge_one contains entry_of
merge_one-SeenAreInflight r m h id =
    ground (arith, h id, attempts_of-append m.inflight (entry_of r) id)

merge_one-inflight :
    (r : Reservation) (m : Merging) (id : String)
    → contains (attempts_of m.inflight) id ≡ true
    → contains (attempts_of (merge_one r m).inflight) id ≡ true
unfolding merge_one entry_of
merge_one-inflight r m id h = ground (arith, attempts_of-append m.inflight (entry_of r) id)

merge_one-reserved :
    (r : Reservation) (m : Merging) (id : String)
    → contains m.reserved_nodes id ≡ true
    → contains (merge_one r m).reserved_nodes id ≡ true
unfolding merge_one contains
merge_one-reserved r m id h = ground arith

-- the reservation's attempt is in flight, and its node is reserved
record IsHeld (m : Merging) (r : Reservation) : Type 0 where
  node : contains m.reserved_nodes r.candidate.node_run_id ≡ true
  attempt : contains (attempts_of m.inflight) r.attempt_id ≡ true

merge_one-IsHeld :
    (r : Reservation) (m : Merging)
    → SeenAreInflight m
    → r.confirmed ≡ false
    → IsHeld (merge_one r m) r
unfolding merge_one contains entry_of
merge_one-IsHeld r m seen unconfirmed = record {
  node = ground (arith, eq_refl r.candidate.node_run_id);
  attempt = ground (
    arith,
    seen r.attempt_id,
    attempts_of-append m.inflight (entry_of r) r.attempt_id,
    eq_refl r.attempt_id,
  );
}

merge_all-IsHeld :
    (list : List Reservation) (m : Merging) (r : Reservation)
    → IsHeld m r
    → IsHeld (merge_all list m) r
unfolding merge_all
merge_all-IsHeld [] m r h = h
merge_all-IsHeld (first ∷ rest) m r h = merge_all-IsHeld rest (merge_one first m) r (record {
  node = merge_one-reserved first m r.candidate.node_run_id h.node;
  attempt = merge_one-inflight first m r.attempt_id h.attempt;
})

merge_all-holds :
    (list : List Reservation) (m : Merging)
    → SeenAreInflight m
    → All (λ r. r.confirmed ≡ false → IsHeld (merge_all list m) r) list
unfolding merge_all
merge_all-holds [] m seen = tt
merge_all-holds (first ∷ rest) m seen = (
  (λ unconfirmed.
      merge_all-IsHeld rest (merge_one first m) first (merge_one-IsHeld first m seen unconfirmed)),
  merge_all-holds rest (merge_one first m) (merge_one-SeenAreInflight first m seen),
)

filter-offers :
    (reserved : List String) (candidates : List Candidate) (id : String)
    → contains reserved id ≡ true
    → offers (filter (λ candidate. not (contains reserved candidate.node_run_id)) candidates) id
      ≡ false
unfolding offers filter
filter-offers reserved [] id h = refl
filter-offers reserved (candidate ∷ rest) id h = elim (Bool-cases (id == candidate.node_run_id)) [
  | inl same ↦
      let known =
        subst (λ x. contains reserved x ≡ true) ((eq_iff id candidate.node_run_id).0 same) h in
      ground (arith, filter-offers reserved rest id h)
  | inr other ↦ ground (arith, filter-offers reserved rest id h)
]

-- A reservation that is not confirmed is merged into the snapshot: its attempt is in flight, and its
-- node is no candidate any more.
pub merge_reservations_held :
    (hash : String → ℕ) (snapshot : AuthoritySnapshot) (reservations : List Reservation) (lanes : ℕ)
    → All
        (λ r.
          r.confirmed ≡ false
          → (contains
                (attempts_of
                  (merge_reservations hash snapshot reservations lanes).snapshot.inflight)
                r.attempt_id
              ≡ true)
            × (offers
                  (merge_reservations hash snapshot reservations lanes).snapshot.candidates
                  r.candidate.node_run_id
                ≡ false))
        reservations
unfolding merge_reservations
merge_reservations_held hash snapshot reservations lanes =
    let start : Merging = record {
      keep = lanes_of hash lanes snapshot.inflight;
      reserved_nodes = [];
      seen_attempts = attempts_of snapshot.inflight;
      inflight = snapshot.inflight;
    } in
    All-map reservations
      (λ r held unconfirmed. (
        (held unconfirmed).attempt,
        filter-offers (merge_all reservations start).reserved_nodes snapshot.candidates
            r.candidate.node_run_id (held unconfirmed).node,
      ))
      (merge_all-holds reservations start (λ id h. h))
