-- ===== src/Limiter/Buckets.antt =====
-- The map of buckets of internal/idp/ratelimit.go, whose length the sweep reads: its entries, one
-- for each key.
use minidp.Base.{
  ℕ, ◌-◌, ◌≡◌, refl, ◌≤◌, String, ◌==◌, eq_iff, Option, none, some, List, [], ◌∷◌, ltb, arith,
  if◌then◌else◌,
}

pub record Bucket : Type 0 where
  pub last : ℕ
  pub tokens : ℕ

abbrev pub BucketMap : Type 0
BucketMap = List (String × Bucket)

unfoldable pub find : String → BucketMap → Option Bucket
find k [] = none
find k ((j, b) ∷ m) = if j == k then some b else find k m

unfoldable pub set : String → Bucket → BucketMap → BucketMap
set k b [] = (k, b) ∷ []
set k b ((j, c) ∷ m) = let rest = set k b m in if j == k then (j, b) ∷ m else (j, c) ∷ rest

unfoldable pub drop_idle : ℕ → ℕ → BucketMap → BucketMap
drop_idle now idle [] = []
drop_idle now idle ((j, b) ∷ m) =
    let rest = drop_idle now idle m in if ltb idle (now - b.last) then rest else (j, b) ∷ rest

-- No key has two entries, and no bucket was touched after `t`.
abbrev pub IsProper : ℕ → BucketMap → Type 0
IsProper t [] = Unit {0}
IsProper t ((j, b) ∷ m) = (find j m ≡ none) × (b.last ≤ t) × IsProper t m

pub find-set :
    (k j : String) (b : Bucket) (m : BucketMap)
    → find j (set k b m) ≡ (if k == j then some b else find j m)
unfolding find set
find-set k j b [] = refl
find-set k j b ((i, c) ∷ m) = ground (arith, eq_iff k j, eq_iff i k, eq_iff i j, find-set k j b m)

abbrev pub unless_idle : ℕ → ℕ → Option Bucket → Option Bucket
unless_idle now idle none = none
unless_idle now idle (some b) = if ltb idle (now - b.last) then none else some b

find-drop_idle-none :
    (now idle : ℕ) (k : String) (m : BucketMap)
    → find k m ≡ none
    → find k (drop_idle now idle m) ≡ none
unfolding find drop_idle
find-drop_idle-none now idle k [] h = refl
find-drop_idle-none now idle k ((j, b) ∷ m) h = ground (arith, find-drop_idle-none now idle k m)

pub find-drop_idle :
    (t now idle : ℕ) (k : String) (m : BucketMap)
    → IsProper t m
    → find k (drop_idle now idle m) ≡ unless_idle now idle (find k m)
unfolding find drop_idle
find-drop_idle t now idle k [] p = refl
find-drop_idle t now idle k ((j, b) ∷ m) p =
    ground (arith, eq_iff j k, find-drop_idle t now idle k m p.2, find-drop_idle-none now idle k m)

pub drop_idle-IsProper :
    (t now idle : ℕ) (m : BucketMap) → IsProper t m → IsProper t (drop_idle now idle m)
unfolding drop_idle
drop_idle-IsProper t now idle [] p = tt
drop_idle-IsProper t now idle ((j, b) ∷ m) p =
    ground (arith, drop_idle-IsProper t now idle m p.2, find-drop_idle-none now idle j m)

pub IsProper-mono : (t u : ℕ) (m : BucketMap) → t ≤ u → IsProper t m → IsProper u m
IsProper-mono t u [] h p = tt
IsProper-mono t u ((j, b) ∷ m) h p = (p.0, omega arith, IsProper-mono t u m h p.2)

pub set-IsProper :
    (t : ℕ) (k : String) (b : Bucket) (m : BucketMap)
    → b.last ≤ t
    → IsProper t m
    → IsProper t (set k b m)
unfolding set find
set-IsProper t k b [] h p = (refl, h, tt)
set-IsProper t k b ((j, c) ∷ m) h p =
    ground (arith, set-IsProper t k b m h p.2, find-set k j b m, eq_iff j k, eq_iff k j)

-- The buckets that a limiter holds were touched in the past.
pub find-last :
    (t : ℕ) (k : String) (m : BucketMap) (b : Bucket)
    → IsProper t m
    → find k m ≡ some b
    → b.last ≤ t
unfolding find
find-last t k [] b p e = cc
find-last t k ((j, c) ∷ m) b p e = ground (arith, find-last t k m b p.2)
