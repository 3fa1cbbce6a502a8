-- ===== src/Htram/Resize.antt =====
-- setBufferSize, modes WPs and WW: the buffers fit the new size, and what no longer does leaves.
use htram.Prelude.{
  ℕ, ◌≤◌, ◌<◌, ◌≡◌, refl, ◌∙◌, ◌&&◌, false, Option, none, some, ltb, leb, ◌==◌, ◌⊎◌, dec_lt, inl,
  inr, Bool-cases, arith,
}
use htram.Env.{Env}
use htram.Message.{next}
use htram.Hold.Measure.{admitted}
use htram.Port.{
  Port, Settings, ship_buffer, release_items, release_if_due, count_sent, note_full_send, trim,
  post,
}
use htram.Port.Valid.{contents, IsValid}
use htram.Port.Ship.{post-Ready, contents-post}
use htram.Port.Insert.{IsMonotone}
use htram.Port.Release.{insert_buckets_by_dest-Released}
use htram.Htram.{Htram, bufsize, over_lanes, with_buffer_size, resize_buffer, set_buffer_size}
use htram.Htram.Lanes.{PeIsValid, PeKeeps, over_lanes-valid, over_lanes-contents}

module _ {A : Type 0} (E : Env A) (mono : IsMonotone E) where
  release_if_due-IsValid :
      (s : Settings E) (p : Port A) → IsValid s p → IsValid s (release_if_due E s p)
  unfolding release_if_due
  release_if_due-IsValid s p v = elim (Bool-cases (E.gt p.updates s.release_level)) [
    | inl due ↦ rw due ((insert_buckets_by_dest-Released E s mono p v).keeps.valid)
    | inr idle ↦ rw idle v
  ]

  release_if_due-same :
      (s : Settings E) (w : A → ℕ) (p : Port A)
      → IsValid s p
      → contents w (release_if_due E s p) ≡ contents w p
  unfolding release_if_due
  release_if_due-same s w p v = elim (Bool-cases (E.gt p.updates s.release_level)) [
    | inl due ↦ rw due ((insert_buckets_by_dest-Released E s mono p v).keeps.same w)
    | inr idle ↦ rw idle
  ]

  module _ (new : ℕ) (positive : 0 < new) (s : Settings E) where
    abbrev s' : Settings E
    s' = with_buffer_size E new s

    -- Of the three cases of a buffer: too small, full by the new size, or neither.
    resize_buffer-IsValid : (p : Port A) → IsValid s p → IsValid s' (resize_buffer E s' p)
    unfolding resize_buffer with_buffer_size
    resize_buffer-IsValid p v = elim (Bool-cases (ltb p.msg.cap new)) [
      | inl small ↦ rw small (record {
        ready = record {
          room = let r = v.ready.room in let c = v.ready.wide in ground arith;
          wide = omega arith;
          exact = v.ready.exact;
          in_bounds = v.ready.in_bounds;
        };
        formed = v.formed;
        sound = v.sound;
      })
      | inr large ↦ rw large (elim (Bool-cases (leb new (next p.msg))) [
        | inl full ↦ rw full (record {
          ready =
              unfold ship_buffer count_sent note_full_send release_items in
              post-Ready E s' (admitted s.tram_threshold p.hold) (note_full_send (count_sent p))
                (unfold count_sent note_full_send in ground arith)
                (unfold count_sent note_full_send in omega (arith, v.ready.room, v.ready.wide))
                (unfold count_sent note_full_send in v.ready.exact) positive
                (unfold count_sent note_full_send in v.ready.in_bounds);
          formed = unfold ship_buffer count_sent note_full_send release_items post trim in v.formed;
          sound = unfold ship_buffer count_sent note_full_send release_items post trim in v.sound;
        })
        | inr rest ↦ rw rest (record {
          ready = record {
            room = ground arith;
            wide = ground arith;
            exact = v.ready.exact;
            in_bounds = v.ready.in_bounds;
          };
          formed = v.formed;
          sound = v.sound;
        })
      ])
    ]

    resize_buffer-same : (w : A → ℕ) (p : Port A) → contents w (resize_buffer E s' p) ≡ contents w p
    unfolding resize_buffer with_buffer_size
    resize_buffer-same w p = elim (Bool-cases (ltb p.msg.cap new)) [
      | inl small ↦ rw small (unfold contents in refl)
      | inr large ↦ rw large (elim (Bool-cases (leb new (next p.msg))) [
        | inl full ↦ rw full (
            unfold ship_buffer count_sent note_full_send release_items in
            contents-post E s' w _ ∙ unfold contents in refl)
        | inr rest ↦ rw rest
      ])
    ]

    round : Port A → Port A
    round p = release_if_due E s' (resize_buffer E s' p)

    round-IsValid : (p : Port A) → IsValid s p → IsValid s' (round p)
    unfolding round
    round-IsValid p v = release_if_due-IsValid s' _ (resize_buffer-IsValid p v)

    round-same : (w : A → ℕ) (p : Port A) → IsValid s p → contents w (round p) ≡ contents w p
    unfolding round
    round-same w p v =
        release_if_due-same s' w _ (resize_buffer-IsValid p v) ∙ resize_buffer-same w p

  refused : (new : ℕ) → (ltb 0 new && leb new bufsize) ≡ false → (new ≡ 0) ⊎ (bufsize < new)
  refused new e = elim (dec_lt bufsize new) [ yes large ↦ inr large | no fits ↦ inl (ground arith) ]

  -- The outcome of setBufferSize: the assertion fails, or the PE has the size asked for, with every
  -- destination valid under it and nothing lost.
  unfoldable pub Resized : ℕ → Htram E → Option (Htram E) → Type 0
  Resized new h none = (new ≡ 0) ⊎ (bufsize < new)
  Resized new h (some h') =
      (h'.settings.buf_size ≡ new) × (0 < new) × (new ≤ bufsize) × PeKeeps h h'

  -- setBufferSize on a valid PE fails its assertion only for a size of 0 or above BUFSIZE.
  -- Otherwise the PE has the size asked for, which is from 1 to BUFSIZE, every destination is valid
  -- under it (its buffer can hold that many items and holds fewer), and nothing is lost. The float
  -- comparison of the release test is assumed monotone.
  pub set_buffer_size-Resized :
      (new : ℕ) (h : Htram E) → PeIsValid h → Resized new h (set_buffer_size E new h)
  unfolding set_buffer_size Resized
  set_buffer_size-Resized new h v = elim (Bool-cases (ltb 0 new && leb new bufsize)) [
    | inr bad ↦ rw bad (refused new bad)
    | inl good ↦
        let positive : 0 < new = ground arith in
        let inside : new ≤ bufsize = ground arith in
        rw good (elim (Bool-cases (new == h.settings.buf_size)) [
          | inl same ↦
              rw same (ground arith, positive, inside, record { valid = v; same = λ w. refl })
          | inr differ ↦
              let s = h.settings in
              rw differ (
                unfold over_lanes with_buffer_size in refl,
                positive,
                inside,
                record {
                  valid =
                      unfold over_lanes round in
                      over_lanes-valid s (s' new positive s) (round new positive s)
                        (round-IsValid new positive s) (round-same new positive s)
                        (record h { settings = s' new positive s }) v;
                  same = λ w.
                      unfold round in
                      over_lanes-contents s (s' new positive s) (round new positive s)
                        (round-IsValid new positive s) (round-same new positive s) w
                        (record h { settings = s' new positive s }) v;
                },
              )
        ])
  ]
