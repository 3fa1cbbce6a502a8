-- ===== src/Combine/Cyclic.antt =====
-- Positions round a table: what lies between two of them, going up and past the end to the start.
use htram.Prelude.{
  ℕ, ◌+◌, ◌-◌, ◌%◌, ◌<◌, ◌≡◌, ◌≢◌, Bool, true, false, ltb, leb, ◌==◌, ◌&&◌, ◌||◌, if◌then◌else◌,
  ◌⊎◌, arith,
}

-- `k` is on the way from `a` to `j`, both included.
abbrev pub within : ℕ → ℕ → ℕ → Bool
within a k j = if leb a j then leb a k && leb k j else (leb a k || leb k j)

-- `k` lies after `h` and before `n`.
abbrev pub after : ℕ → ℕ → ℕ → Bool
after h k n = if ltb h n then ltb h k && ltb k n else (ltb h k || ltb k n)

-- The test of `erase`: `home` does not lie in (hole, next].
abbrev pub movable : ℕ → ℕ → ℕ → Bool
movable hole next home =
    if ltb hole next then (leb home hole || ltb next home) else (leb home hole && ltb next home)

-- The next position of `n`.
abbrev pub succ : ℕ → ℕ → ℕ
succ n i = if i + 1 == n then 0 else i + 1

pub succ_mod : (n i : ℕ) → i < n → (i + 1) % n ≡ succ n i
succ_mod n i h = grind arith

pub succ-lt : (n i : ℕ) → i < n → succ n i < n
succ-lt n i h = ground arith

pub within_self : (a j : ℕ) → within a j j ≡ true
within_self a j = ground arith

pub within_start : (a j : ℕ) → within a a j ≡ true
within_start a j = ground arith

pub within_sub : (a k h j : ℕ) → within a h j ≡ true → within a k h ≡ true → within a k j ≡ true
within_sub a k h j p q = ground arith

-- If the way to `n` does not start after `h`, it passes `h`.
pub movable-within : (h n a : ℕ) → h ≢ n → movable h n a ≡ true → within a h n ≡ true
movable-within h n a ne m = ground arith

pub not_movable-within : (h n a : ℕ) → h ≢ n → movable h n a ≡ false → within a h n ≡ false
not_movable-within h n a ne m = ground arith

-- A way through `h` that stops short of `n` ends between them.
pub within-after :
    (a h j n : ℕ) → within a h j ≡ true → within a n j ≡ false → j ≢ h → after h j n ≡ true
within-after a h j n p q ne = ground arith

-- One position more.
pub after-succ :
    (c h k n : ℕ)
    → k < c
    → n < c
    → n ≢ h
    → after h k (succ c n) ≡ true
    → (after h k n ≡ true) ⊎ (k ≡ n)
after-succ c h k n lk ln ne p = ground arith

pub after_next : (c h k : ℕ) → k < c → h < c → after h k (succ c h) ≡ true → ⊥
after_next c h k lk lh p = ground arith

pub after_all : (h k : ℕ) → k ≢ h → after h k h ≡ true
after_all h k ne = ground arith

pub succ_ne : (c h n : ℕ) → h < c → n < c → h ≢ n → n ≢ succ c n
succ_ne c h n lh ln ne e = ground arith

-- A way that a scan from `a` has gone through, up to `s` and without it.
pub within-succ :
    (c a k s : ℕ)
    → k < c
    → s < c
    → within a k (succ c s) ≡ true
    → k ≢ succ c s
    → (k ≡ s) ⊎ ((within a k s ≡ true) × (k ≢ s))
within-succ c a k s lk ls p ne = ground arith

pub within_other : (a s j : ℕ) → within a s j ≡ false → (within a j s ≡ true) × (j ≢ s)
within_other a s j p = ground arith

pub within_point : (a k : ℕ) → within a k a ≡ true → k ≡ a
within_point a k p = ground arith

-- How far it is from `n` on to `z`.
abbrev pub gap : ℕ → ℕ → ℕ → ℕ
gap c n z = if leb n z then z - n else z + c - n

pub gap-lt : (c n z : ℕ) → n < c → z < c → gap c n z < c
gap-lt c n z ln lz = ground arith

pub gap-succ : (c n z : ℕ) → n < c → z < c → n ≢ z → gap c (succ c n) z < gap c n z
gap-succ c n z ln lz ne = ground arith
