-- ===== src/Files/StatusFlags/Laws.antt =====
-- What FileStatusFlags does to the flags (IOInfra/FileStatusFlags.cpp), whatever the kernel answers.
use mathlib.Core.Bool.{true≢false}
use Prim.Native.Nat.{bit_and}
use ipcinfra.Prelude.{
  ℕ, ◌-◌, ◌^◌, ◌<◌, ◌≡◌, ◌≢◌, refl, sym, ap, ◌∙◌, Bool, true, false, ◌&&◌, not, arith, nat_beq,
  nat_beq_iff, Bool-cases, inl, inr,
}
use ipcinfra.Prelude.Bits.{bit, bit-bit_and, bit-complement, bit-none}
use ipcinfra.Files.{
  differs, differs-true, change_flag, has_flag, has_flag-bit, has_flag-change, bit-change_other,
}
use ipcinfra.Files.StatusFlags.{
  Fcntl, FileStatusFlags, failed, is_undefined, valid, set_flags_mask, sett_access_mode_flag,
  get_single_flag, set_flags, set_single_flag, dsync, sync, o_sync,
}

-- The word of an error has every flag.
each_flag : (j : ℕ) → j < 32 → has_flag failed (2 ^ j) ≡ true
each_flag j inside =
    has_flag-bit failed j
    ∙ ap (λ (b : ℕ). nat_beq b 1)
        (bit-complement 32 j 0 (omega arith) inside ∙ ap (λ (b : ℕ). 1 - b) (bit-none j))

module _ {S : Type 0} (fcntl : Fcntl S) where
  -- What an answer `true` promises of the object and the kernel's state.
  pub record Changed (k : ℕ) (requested : Bool) (f f' : FileStatusFlags) (s' : S) : Type 0 where
    pub reads : get_single_flag (2 ^ k) f' ≡ requested
    pub others : (j : ℕ) → j < 32 → j ≢ k → bit j f'.flags ≡ bit j f.flags
    pub kernel : fcntl.get_fl f.descriptor s' ≡ f'.flags
    pub mode : f'.access_mode ≡ f.access_mode

  abbrev pub Answers : ℕ → Bool → FileStatusFlags → S → Bool × FileStatusFlags × S → Type 0
  Answers k requested f s r =
      (r.0 ≡ true → Changed k requested f r.1 r.2)
      × (get_single_flag (2 ^ k) f ≡ requested → r ≡ (false, f, s))

  -- For a flag of one bit within the 32 bits, whatever the kernel does: if setSingleFlag answers
  -- true, the flag then reads as requested, each other of the 32 bits is as it was before, the
  -- object's flags are those that the kernel reports, and the access mode has not changed; if the
  -- flag reads as requested already, it answers false and changes neither the object nor the
  -- kernel's state.
  pub set_single_flag-Answers :
      (k : ℕ) (requested : Bool) (f : FileStatusFlags) (s : S)
      → k < 32
      → Answers k requested f s (set_single_flag fcntl (2 ^ k) requested f s)
  unfolding set_single_flag set_flags_mask get_single_flag valid
  set_single_flag-Answers k requested f s below =
      let flag = 2 ^ k in
      let changed = change_flag requested flag f.flags in
      let s' = fcntl.set_fl f.descriptor changed s in
      let latest = fcntl.get_fl f.descriptor s' in
      elim (Bool-cases (valid f)) [
        | inr bad ↦ rw bad (λ h. absurd (true≢false (sym h)), λ h. refl)
        | inl good ↦ elim (Bool-cases (differs requested (has_flag f.flags flag))) [
          | inr same ↦ rw (good, same) (λ h. absurd (true≢false (sym h)), λ h. refl)
          | inl diff ↦
              let refuted = differs-true requested (has_flag f.flags flag) diff in
              elim (Bool-cases (nat_beq f.flags latest)) [
                | inl old ↦
                    rw (good, diff, old) (λ h. absurd (true≢false (sym h)), λ h. absurd (refuted h))
                | inr new ↦
                    rw (good, diff, new)
                      (
                        λ h.
                            let e = (nat_beq_iff changed latest).0 h in
                            record {
                              reads =
                                  rw good (rw (sym e) (has_flag-change requested k f.flags below));
                              others = λ j inside ne.
                                  ap (bit j) (sym e)
                                  ∙ bit-change_other requested k j f.flags below inside ne;
                              kernel = refl;
                              mode = refl;
                            },
                        λ h. absurd (refuted h),
                      )
              ]
        ]
      ]

  -- If a valid object does not have the flag to be set and the kernel reports an error when the
  -- flags are read back, each of the 32 single flags reads as set afterwards.
  pub set_single_flag-failed :
      (k j : ℕ) (f : FileStatusFlags) (s : S)
      → j < 32
      → valid f ≡ true
      → has_flag f.flags (2 ^ k) ≡ false
      → fcntl.get_fl f.descriptor (fcntl.set_fl f.descriptor (change_flag true (2 ^ k) f.flags) s)
        ≡ failed
      → get_single_flag (2 ^ j) (set_single_flag fcntl (2 ^ k) true f s).1 ≡ true
  unfolding set_single_flag set_flags_mask get_single_flag valid
  set_single_flag-failed k j f s inside v off lost =
      rw (v, off, lost)
        (elim (Bool-cases (nat_beq f.flags failed)) [
          | inl old ↦
              rw (old, v)
                (ap (λ (m : ℕ). has_flag m (2 ^ j)) ((nat_beq_iff f.flags failed).0 old)
                  ∙ each_flag j inside)
          | inr new ↦ rw (new, v) (each_flag j inside)
        ])

flag-within : (flags : ℕ) → has_flag flags (2 ^ 12) ≡ true → has_flag flags o_sync ≡ true
flag-within flags h = elim (Bool-cases (nat_beq (bit_and flags o_sync) 0)) [
  | inr some_bit ↦ rw some_bit refl
  | inl no_bit ↦
      let on = (nat_beq_iff (bit 12 flags) 1).0 (sym (has_flag-bit flags 12) ∙ h) in
      let off = ap (bit 12) ((nat_beq_iff (bit_and flags o_sync) 0).0 no_bit) in
      absurd (omega (arith, on, off, bit-bit_and 12 flags o_sync))
]

-- If dsync answers true, so does sync.
pub dsync-sync : (f : FileStatusFlags) → dsync f ≡ true → sync f ≡ true
unfolding get_single_flag
dsync-sync f h = elim (Bool-cases (valid f)) [
  | inl v ↦ rw v (flag-within f.flags (rw v at h))
  | inr bad ↦ absurd (true≢false (sym h ∙ rw bad refl))
]

sett_access_mode_flag-flags :
    (value : ℕ) (f : FileStatusFlags) → (sett_access_mode_flag value f).flags ≡ f.flags
unfolding sett_access_mode_flag
sett_access_mode_flag-flags value f = ground arith

sett_access_mode_flag-descriptor :
    (value : ℕ) (f : FileStatusFlags) → (sett_access_mode_flag value f).descriptor ≡ f.descriptor
unfolding sett_access_mode_flag
sett_access_mode_flag-descriptor value f = ground arith

-- What setFlags answers, and what it leaves of the object.
abbrev pub Outcome : ℕ → FileStatusFlags → Bool × FileStatusFlags → Type 0
Outcome value f r =
    (r.0 ≡ (valid (sett_access_mode_flag value f) && not (nat_beq f.flags value)))
    × (r.0 ≡ true → r.1 ≡ record (sett_access_mode_flag value f) { flags = value })
    × (r.0 ≡ false → is_undefined f.access_mode ≡ false → r.1 ≡ f)

restored :
    (value : ℕ) (f : FileStatusFlags)
    → record (sett_access_mode_flag value f) { access_mode = f.access_mode } ≡ f
restored value f =
    rw (sett_access_mode_flag-flags value f, sett_access_mode_flag-descriptor value f) refl

-- setFlags answers true exactly if the object, its access mode taken from the new flags, is valid
-- and the new flags differ from the old ones; it then holds that mode and the new flags, and
-- where it answers false and the old access mode was defined the object is left as it was.
pub set_flags-Outcome : (value : ℕ) (f : FileStatusFlags) → Outcome value f (set_flags value f)
unfolding set_flags set_flags_mask
set_flags-Outcome value f =
    let f' = sett_access_mode_flag value f in
    let same = sett_access_mode_flag-flags value f in
    elim (Bool-cases (valid f')) [
      | inr bad ↦
          rw bad (refl, λ h. absurd (true≢false (sym h)), λ h kept. rw kept (restored value f))
      | inl good ↦ elim (Bool-cases (nat_beq f.flags value)) [
        | inl old ↦
            let old' : nat_beq f'.flags value ≡ true = ap (λ (m : ℕ). nat_beq m value) same ∙ old in
            rw (good, old', old)
              (refl, λ h. absurd (true≢false (sym h)), λ h kept. rw kept (restored value f))
        | inr new ↦
            let new' : nat_beq f'.flags value ≡ false =
              ap (λ (m : ℕ). nat_beq m value) same ∙ new in
            rw (good, new', new) (refl, λ h. refl, λ h. absurd (true≢false h))
      ]
    ]
