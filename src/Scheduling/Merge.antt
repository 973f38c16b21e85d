-- ===== src/Scheduling/Merge.antt =====
-- internal/scheduling/scheduler.go: mergeReservations. The two maps from lanes to sets of attempts
-- are lists of pairs.
use evalfrog.Prelude.{
  ℕ, String, Bool, not, ◌&&◌, List, [], ◌∷◌, ◌++◌, if◌then◌else◌, contains, filter,
}
use evalfrog.Json.{ℤ, pos}
use evalfrog.Scheduling.{ResourceClass, Candidate, Inflight, AuthoritySnapshot, lane_for}

pub record Reservation : Type 0 where
  pub attempt_id : String
  pub project_id : String
  pub lane : ℤ
  pub resource_class : ResourceClass
  pub candidate : Candidate
  pub confirmed : Bool
  pub epoch : String

-- The variables of the loop over the reservations.
pub record Merging : Type 0 where
  pub keep : List (ℤ × String)
  pub reserved_nodes : List String
  pub seen_attempts : List String
  pub inflight : List Inflight

unfoldable pub attempts_of : List Inflight → List String
attempts_of [] = []
attempts_of (value ∷ rest) = value.attempt_id ∷ attempts_of rest

-- the snapshot's attempts with their lanes
unfoldable pub lanes_of : (String → ℕ) → ℕ → List Inflight → List (ℤ × String)
unfolding lane_for
lanes_of hash lanes [] = []
lanes_of hash lanes (value ∷ rest) =
    (pos (lane_for hash value.project_id lanes), value.attempt_id) ∷ lanes_of hash lanes rest

-- one round
unfoldable pub merge_one : Reservation → Merging → Merging
unfolding contains
merge_one reservation m =
    let seen = contains m.seen_attempts reservation.attempt_id in
    if reservation.confirmed && not seen then m else record {
      keep = (reservation.lane, reservation.attempt_id) ∷ m.keep;
      reserved_nodes = reservation.candidate.node_run_id ∷ m.reserved_nodes;
      seen_attempts = if seen then m.seen_attempts else reservation.attempt_id ∷ m.seen_attempts;
      inflight =
          if seen
          then m.inflight
          else m.inflight
            ++ (record {
              attempt_id = reservation.attempt_id;
              project_id = reservation.project_id;
              resource_class = reservation.resource_class;
            })
              ∷ [];
    }

unfoldable pub merge_all : List Reservation → Merging → Merging
unfolding merge_one
merge_all [] m = m
merge_all (reservation ∷ rest) m = merge_all rest (merge_one reservation m)

pub record Merged : Type 0 where
  pub snapshot : AuthoritySnapshot
  pub keep : List (ℤ × String)
  pub renew : List (ℤ × String)

unfoldable pub merge_reservations : (String → ℕ) → AuthoritySnapshot → List Reservation → ℕ → Merged
unfolding merge_all attempts_of lanes_of filter contains
merge_reservations hash snapshot reservations lanes =
    let m = merge_all reservations (record {
      keep = lanes_of hash lanes snapshot.inflight;
      reserved_nodes = [];
      seen_attempts = attempts_of snapshot.inflight;
      inflight = snapshot.inflight;
    }) in
    record {
      snapshot = record {
        candidates =
            filter (λ candidate. not (contains m.reserved_nodes candidate.node_run_id))
              snapshot.candidates;
        inflight = m.inflight;
      };
      keep = m.keep;
      renew = lanes_of hash lanes snapshot.inflight;
    }
