-- ===== src/Snapshot/Choice.antt =====
-- The snapshot that each search picks, for an array in which every snapshot has its number.
use duckdb_iceberg.Common.{
  ℕ, ◌≤◌, ◌<◌, ◌≡◌, ◌≢◌, ◌⊎◌, inl, inr, Bool, true, false, ◌&&◌, Option, none, some, List, [], ◌∷◌,
  ◌++◌, All, ok, refl, arith, eqb_refl, eqb_of_ne, leb,
}
use duckdb_iceberg.Json.{Json, arr_items}
use duckdb_iceberg.Utils.{try_get_num}
use duckdb_iceberg.Snapshot.Find.{
  latest_loop, find_latest, by_id_loop, find_by_id, by_timestamp_loop, find_by_timestamp,
}

-- The snapshot's timestamp is `n` milliseconds.
abbrev pub Stamped : Json → ℕ → Type 0
Stamped snapshot n = try_get_num (some snapshot) "timestamp-ms" ≡ ok n

abbrev pub StampedAtMost : ℕ → Json → Type 0
StampedAtMost t snapshot = (n : ℕ) × Stamped snapshot n × (n ≤ t)

abbrev pub StampedBelow : ℕ → Json → Type 0
StampedBelow t snapshot = (n : ℕ) × Stamped snapshot n × (n < t)

leb-true : (m n : ℕ) → m ≤ n → leb m n ≡ true
leb-true m n h = ground arith

leb-false : (m n : ℕ) → n < m → leb m n ≡ false
leb-false m n h = ground arith

latest_loop_after :
    (t : ℕ) (best : Option Json) (after : List Json)
    → All (StampedBelow t) after
    → latest_loop t best after ≡ ok best
unfolding latest_loop
latest_loop_after t best [] h = refl
latest_loop_after t best (s ∷ after) ((n, e, l), h) =
    rw e (rw (leb-false t n l) (latest_loop_after t best after h))

latest_loop_picks :
    (m t : ℕ) (best : Option Json) (before : List Json) (s : Json) (after : List Json)
    → m ≤ t
    → All (StampedAtMost t) before
    → Stamped s t
    → All (StampedBelow t) after
    → latest_loop m best (before ++ s ∷ after) ≡ ok (some s)
unfolding latest_loop
latest_loop_picks m t best [] s after l h e k =
    rw e (rw (leb-true m t l) (latest_loop_after t (some s) after k))
latest_loop_picks m t best (x ∷ before) s after l ((n, d, b), h) e k = elim (le-cases m n) [
  | inl le ↦ rw d (rw (leb-true m n le) (latest_loop_picks n t (some x) before s after b h e k))
  | inr gt ↦ rw d (rw (leb-false m n gt) (latest_loop_picks m t best before s after l h e k))
]
  where
    le-cases : (a b : ℕ) → (a ≤ b) ⊎ (b < a)
    le-cases a b = ground arith

-- The latest snapshot is the one with the greatest timestamp, and of equal ones the last.
pub find_latest_greatest :
    (snapshots : Option Json) (before : List Json) (s : Json) (after : List Json) (t : ℕ)
    → arr_items snapshots ≡ before ++ s ∷ after
    → All (StampedAtMost t) before
    → Stamped s t
    → All (StampedBelow t) after
    → find_latest snapshots ≡ ok (some s)
unfolding find_latest
find_latest_greatest snapshots before s after t split h e k =
    rw split (latest_loop_picks 0 t none before s after (omega arith) h e k)

-- The snapshot has a timestamp, which is over the bound or at most `t`.
abbrev pub OverOrAtMost : ℕ → ℕ → Json → Type 0
OverOrAtMost bound t snapshot = (n : ℕ) × Stamped snapshot n × ((bound < n) ⊎ (n ≤ t))

abbrev pub OverOrBelow : ℕ → ℕ → Json → Type 0
OverOrBelow bound t snapshot = (n : ℕ) × Stamped snapshot n × ((bound < n) ⊎ (n < t))

skipped : (bound m n : ℕ) → (bound < n) ⊎ (n < m) → (leb n bound && leb m n) ≡ false
skipped bound m n (inl over) = rw (leb-false n bound over)
skipped bound m n (inr below) = elim (b-cases (leb n bound)) [
  | inl t ↦ rw (t, leb-false m n below)
  | inr f ↦ rw f
]
  where
    b-cases : (b : Bool) → (b ≡ true) ⊎ (b ≡ false)
    b-cases true = inl refl
    b-cases false = inr refl

kept : (bound m n : ℕ) → n ≤ bound → m ≤ n → (leb n bound && leb m n) ≡ true
kept bound m n h k = rw (leb-true n bound h, leb-true m n k)

by_timestamp_loop_after :
    (bound t : ℕ) (best : Option Json) (after : List Json)
    → All (OverOrBelow bound t) after
    → by_timestamp_loop bound t best after ≡ ok best
unfolding by_timestamp_loop
by_timestamp_loop_after bound t best [] h = refl
by_timestamp_loop_after bound t best (s ∷ after) ((n, e, l), h) =
    rw e (rw (skipped bound t n l) (by_timestamp_loop_after bound t best after h))

stays_or_moves :
    (bound m t n : ℕ)
    → (bound < n) ⊎ (n ≤ t)
    → ((bound < n) ⊎ (n < m)) ⊎ ((n ≤ bound) × (m ≤ n) × (n ≤ t))
stays_or_moves bound m t n h = ground arith

by_timestamp_loop_picks :
    (bound m t : ℕ) (best : Option Json) (before : List Json) (s : Json) (after : List Json)
    → m ≤ t
    → t ≤ bound
    → All (OverOrAtMost bound t) before
    → Stamped s t
    → All (OverOrBelow bound t) after
    → by_timestamp_loop bound m best (before ++ s ∷ after) ≡ ok (some s)
unfolding by_timestamp_loop
by_timestamp_loop_picks bound m t best [] s after l b h e k =
    rw e (rw (kept bound m t b l) (by_timestamp_loop_after bound t (some s) after k))
by_timestamp_loop_picks bound m t best (x ∷ before) s after l b ((n, d, c), h) e k =
    elim (stays_or_moves bound m t n c) [
      | inl stays ↦ rw d (
          rw (skipped bound m n stays)
            (by_timestamp_loop_picks bound m t best before s after l b h e k))
      | inr (p, q, r) ↦ rw d (
          rw (kept bound m n p q)
            (by_timestamp_loop_picks bound n t (some x) before s after r b h e k))
    ]

-- The snapshot at a point in time is the one with the greatest timestamp up to it, and of equal
-- ones the last: every other has a timestamp after that point, or no greater one.
pub find_by_timestamp_greatest :
    (snapshots : Option Json) (bound : ℕ) (before : List Json) (s : Json) (after : List Json)
    (t : ℕ)
    → arr_items snapshots ≡ before ++ s ∷ after
    → t ≤ bound
    → All (OverOrAtMost bound t) before
    → Stamped s t
    → All (OverOrBelow bound t) after
    → find_by_timestamp snapshots bound ≡ ok (some s)
unfolding find_by_timestamp
find_by_timestamp_greatest snapshots bound before s after t split b h e k =
    rw split (by_timestamp_loop_picks bound 0 t none before s after (omega arith) b h e k)

abbrev pub StampedOver : ℕ → Json → Type 0
StampedOver bound snapshot = (n : ℕ) × Stamped snapshot n × (bound < n)

over_skipped :
    (bound t : ℕ) (ss : List Json) → All (StampedOver bound) ss → All (OverOrBelow bound t) ss
over_skipped bound t [] h = tt
over_skipped bound t (s ∷ ss) ((n, e, l), h) = ((n, e, inl l), over_skipped bound t ss h)

-- There is no snapshot at a point in time before every timestamp of the table.
pub find_by_timestamp-none :
    (snapshots : Option Json) (bound : ℕ)
    → All (StampedOver bound) (arr_items snapshots)
    → find_by_timestamp snapshots bound ≡ ok none
unfolding find_by_timestamp
find_by_timestamp-none snapshots bound h =
    by_timestamp_loop_after bound 0 none (arr_items snapshots)
      (over_skipped bound 0 (arr_items snapshots) h)

-- The snapshot carries an id, and another one.
abbrev pub HasOtherSnapshotId : ℕ → Json → Type 0
HasOtherSnapshotId id snapshot =
    (n : ℕ) × (try_get_num (some snapshot) "snapshot-id" ≡ ok n) × (n ≢ id)

by_id_loop_first :
    (id : ℕ) (before : List Json) (s : Json) (after : List Json)
    → All (HasOtherSnapshotId id) before
    → try_get_num (some s) "snapshot-id" ≡ ok id
    → by_id_loop id (before ++ s ∷ after) ≡ ok (some s)
unfolding by_id_loop
by_id_loop_first id [] s after h e = rw e (rw (eqb_refl id))
by_id_loop_first id (x ∷ before) s after ((n, d, ne), h) e =
    rw d (rw (eqb_of_ne n id ne) (by_id_loop_first id before s after h e))

-- The search by id finds the first snapshot with the id, whatever follows it.
pub find_by_id_first :
    (snapshots : Option Json) (id : ℕ) (before : List Json) (s : Json) (after : List Json)
    → arr_items snapshots ≡ before ++ s ∷ after
    → All (HasOtherSnapshotId id) before
    → try_get_num (some s) "snapshot-id" ≡ ok id
    → find_by_id snapshots id ≡ ok (some s)
unfolding find_by_id
find_by_id_first snapshots id before s after split h e =
    rw split (by_id_loop_first id before s after h e)
