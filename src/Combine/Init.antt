-- ===== src/Combine/Init.antt =====
-- CombiningHold::init gives an empty hold.
use htram.Prelude.{
  ◌+◌, ◌^◌, ℕ, zero, suc, ◌<◌, ◌≡◌, refl, sym, ◌∙◌, subst, [], get_or, replicate, length-replicate,
  All, arith,
}
use htram.Combine.{HoldOps, hash_in, entry_at, init}
use htram.Combine.Place.{Rebuilt, rebuild-Rebuilt}
use htram.Combine.Weigh.{one_of, times_in}
use htram.Combine.Tags.{rebuild-IsTagged}
use htram.Combine.Valid.{in_bucket, held}
use htram.Combine.Refs.{IsRef}
use htram.Combine.Whole.{IsValid}

get_or-replicate {ℓ} : {A : Type ℓ} (a : A) (n i : ℕ) → get_or (replicate n a) i a ≡ a
get_or-replicate a zero i = refl
get_or-replicate a (suc n) zero = refl
get_or-replicate a (suc n) (suc i) = get_or-replicate a n i

module _ {A : Type 0} (ops : HoldOps A) (buckets : ℕ) where
  started : Rebuilt (hash_in ops []) 64 [] (init ops buckets).cells
  unfolding init
  started = rebuild-Rebuilt (hash_in ops []) 64 [] (omega arith)

  pub held-init : (w : A → ℕ) → held ops w (init ops buckets) ≡ 0
  held-init w = started.same _

  none_in : (s : ℕ) → times_in s (init ops buckets).cells ≡ 0
  none_in s = started.same (one_of s)

  -- init gives a valid hold, for every number of buckets.
  pub init-IsValid : IsValid ops buckets (init ops buckets)
  unfolding init
  init-IsValid = record {
    counts = record {
      stored = record {
        unbroken = started.unbroken;
        tagged = rebuild-IsTagged (hash_in ops []) 64 [];
        once = λ e. omega (arith, none_in (suc e));
        inside = λ e here. absurd (omega (arith, here, none_in (suc e)));
        keyed = λ s here. absurd (omega (arith, here, none_in s));
        apart = λ s t here. absurd (omega (arith, here, none_in s));
      };
      wide = omega (arith, started.wide);
      room = omega arith;
      counted = started.same (λ s. 1);
      lanes = length-replicate buckets 0;
      exact = λ b. get_or-replicate 0 buckets b ∙ sym (started.same (in_bucket ops [] b));
    };
    rows = length-replicate buckets [];
    referred = record {
      sound = λ b.
          subst (All (IsRef ops [] (init ops buckets).cells b))
            (sym (get_or-replicate [] buckets b)) tt;
      complete = λ e here. absurd (omega (arith, here, none_in (suc e)));
    };
    low = omega arith;
    below = λ b lt. get_or-replicate 0 buckets b;
  }

  pub live-init : (b : ℕ) → get_or (init ops buckets).live b 0 ≡ 0
  unfolding init
  live-init b = get_or-replicate 0 buckets b

  pub stamp-init : (e : ℕ) → (entry_at ops (init ops buckets).pool e).stamp + 1 < 2 ^ 32
  unfolding init
  stamp-init e = omega arith
