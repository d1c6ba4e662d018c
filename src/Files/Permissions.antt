-- ===== src/Files/Permissions.antt =====
-- FilePermissions (IOInfra/FilePermissions.cpp): the permission bits of a file, kept twice, as a word
-- and as an array of flags. The constants are those of <sys/stat.h>.
use Prim.Native.String.{String}
use ipcinfra.Prelude.{
  ℕ, zero, suc, ◌+◌, ◌-◌, ◌^◌, ◌<◌, ◌≡◌, ◌≢◌, refl, sym, ap, ◌∙◌, Bool, true, false, ◌&&◌, ◌||◌,
  not, List, [], ◌∷◌, ◌++◌, arith, nat_beq, nat_beq_iff, ltb, if◌then◌else◌, Bool-cases, inl, inr,
}
use ipcinfra.Prelude.Run.{Run, ok, fault, undefined_behaviour}
use ipcinfra.Prelude.Bits.{bit}
use ipcinfra.Files.{
  FilePermission, underlying, differs, differs-false, has_flag, change_flag, has_flag-bit,
  bit-change_other, has_flag-change,
}

-- `mode_flag_array`, at each index: S_IRUSR to S_IXOTH
abbrev pub mode_flag : ℕ → ℕ
mode_flag zero = 0x100
mode_flag (suc zero) = 0x80
mode_flag (suc (suc zero)) = 0x40
mode_flag (suc (suc (suc zero))) = 0x20
mode_flag (suc (suc (suc (suc zero)))) = 0x10
mode_flag (suc (suc (suc (suc (suc zero))))) = 8
mode_flag (suc (suc (suc (suc (suc (suc zero)))))) = 4
mode_flag (suc (suc (suc (suc (suc (suc (suc zero))))))) = 2
mode_flag (suc (suc (suc (suc (suc (suc (suc (suc zero)))))))) = 1
mode_flag _ = 0

abbrev pub size : ℕ
size = 9

-- `array` has an entry for each index below 9; nothing reads another.
pub record FilePermissions : Type 0 where
  pub array : ℕ → Bool
  pub flags : ℕ

unfoldable pub fill_array : ℕ → FilePermissions → FilePermissions
fill_array flags p = record p { array = λ index. has_flag flags (mode_flag index) }

-- The constructor from a word; the default constructor is the one from 0.
unfoldable pub from_mode_flags : ℕ → FilePermissions
unfolding fill_array
from_mode_flags mode_flags =
    fill_array mode_flags (record { array = λ _. false; flags = mode_flags })

unfoldable pub set_flags : ℕ → FilePermissions → FilePermissions
unfolding fill_array
set_flags mode_flags p =
    let p' : FilePermissions =
      if not (nat_beq p.flags mode_flags) then record p { flags = mode_flags } else p in
    fill_array p'.flags p'

unfoldable pub set : FilePermission → Bool → FilePermissions → FilePermissions
set flag_index value p =
    let index = underlying flag_index in
    if ltb index size && differs value (p.array index)
    then record {
      array = λ j. if nat_beq j index then value else p.array j;
      flags = change_flag value (mode_flag index) p.flags;
    }
    else p

unfoldable pub set_initial_permissions : List FilePermission → FilePermissions → FilePermissions
unfolding set
set_initial_permissions [] p = p
set_initial_permissions (permission ∷ permissions) p =
    set_initial_permissions permissions (set permission true p)

unfoldable pub from_list : List FilePermission → FilePermissions
unfolding set_initial_permissions from_mode_flags
from_list init_list = set_initial_permissions init_list (from_mode_flags 0)

-- `operator[]`, of an index that may lie outside of the array
unfoldable pub at : ℕ → FilePermissions → Run Bool
at index p = if ltb index size then ok (p.array index) else fault undefined_behaviour

-- `toString`, as the pieces that it appends
unfoldable pub piece : ℕ → Bool → List String
piece index granted =
    if nat_beq 0 index || nat_beq 3 index || nat_beq 6 index
    then (if granted then "r" else "-") ∷ []
    else if nat_beq 1 index || nat_beq 4 index || nat_beq 7 index
    then (if granted then "w" else "-") ∷ []
    else if nat_beq 2 index || nat_beq 5 index || nat_beq 8 index
    then (if granted then "x" else "-") ∷ []
    else []

-- The loop from `index` on, with the given number of rounds left.
unfoldable pub pieces_from : ℕ → ℕ → FilePermissions → List String
unfolding piece
pieces_from zero index p = []
pieces_from (suc rounds) index p = piece index (p.array index) ++ pieces_from rounds (index + 1) p

unfoldable pub to_string : FilePermissions → List String
unfolding pieces_from
to_string p = pieces_from size 0 p

-- The word and the array say the same.
abbrev pub InStep : FilePermissions → Type 0
InStep p = (index : ℕ) → index < size → p.array index ≡ has_flag p.flags (mode_flag index)

abbrev pub position : ℕ → ℕ
position index = 8 - index

mode_flag-position : (index : ℕ) → index < size → mode_flag index ≡ 2 ^ position index
mode_flag-position zero below = refl
mode_flag-position (suc zero) below = refl
mode_flag-position (suc (suc zero)) below = refl
mode_flag-position (suc (suc (suc zero))) below = refl
mode_flag-position (suc (suc (suc (suc zero)))) below = refl
mode_flag-position (suc (suc (suc (suc (suc zero))))) below = refl
mode_flag-position (suc (suc (suc (suc (suc (suc zero)))))) below = refl
mode_flag-position (suc (suc (suc (suc (suc (suc (suc zero))))))) below = refl
mode_flag-position (suc (suc (suc (suc (suc (suc (suc (suc zero)))))))) below = refl
mode_flag-position (suc (suc (suc (suc (suc (suc (suc (suc (suc n))))))))) below =
    absurd (omega arith)

flag-here :
    (value : Bool) (index flags : ℕ)
    → index < size
    → has_flag (change_flag value (mode_flag index) flags) (mode_flag index) ≡ value
flag-here value index flags below =
    rw (mode_flag-position index below) (has_flag-change value (position index) flags (omega arith))

bit-there :
    (value : Bool) (index k flags : ℕ)
    → index < size
    → k < 32
    → k ≢ position index
    → bit k (change_flag value (mode_flag index) flags) ≡ bit k flags
bit-there value index k flags below inside ne =
    rw (mode_flag-position index below)
      (bit-change_other value (position index) k flags (omega arith) inside ne)

flag-there :
    (value : Bool) (index j flags : ℕ)
    → index < size
    → j < size
    → j ≢ index
    → has_flag (change_flag value (mode_flag index) flags) (mode_flag j)
      ≡ has_flag flags (mode_flag j)
flag-there value index j flags below below' ne = rw (mode_flag-position j below') (
    has_flag-bit _ (position j)
    ∙ ap (λ (b : ℕ). nat_beq b 1)
        (bit-there value index (position j) flags below (omega arith) (λ same. ne (omega arith)))
    ∙ sym (has_flag-bit flags (position j)))

-- What setting `permission` to `value` makes of `p`.
pub record Sets (permission : FilePermission) (value : Bool) (p p' : FilePermissions) : Type 0 where
  pub in_step : InStep p'
  pub here : p'.array (underlying permission) ≡ value
  pub there : (j : ℕ) → j ≢ underlying permission → p'.array j ≡ p.array j
  pub other_bits :
      (k : ℕ) → k < 32 → k ≢ position (underlying permission) → bit k p'.flags ≡ bit k p.flags

-- If the array is in step with the word, set of a permission that is one of the nine leaves them
-- in step, gives the permission the value, and changes no other entry of the array and no other
-- of the word's 32 bits.
pub set-Sets :
    (permission : FilePermission) (value : Bool) (p : FilePermissions)
    → underlying permission < size
    → InStep p
    → Sets permission value p (set permission value p)
unfolding set
set-Sets permission value p below s =
    let index = underlying permission in
    let inside : ltb index size ≡ true = ground arith in
    elim (Bool-cases (differs value (p.array index))) [
      | inr same ↦
          rw (inside, same)
            (record {
              in_step = s;
              here = differs-false value (p.array index) same;
              there = λ j ne. refl;
              other_bits = λ k inside ne. refl;
            })
      | inl changed ↦
          rw (inside, changed)
            (record {
              in_step = λ j below'. elim (Bool-cases (nat_beq j index)) [
                | inl same ↦
                    rw (same, (nat_beq_iff j index).0 same)
                      (sym (flag-here value index p.flags below))
                | inr other ↦
                    let ne : j ≢ index = λ e. ground arith in
                    rw other (s j below' ∙ sym (flag-there value index j p.flags below below' ne))
              ];
              here = rw ((nat_beq_iff index index).1 refl) refl;
              there = λ j ne. ground arith;
              other_bits = λ k inside ne. bit-there value index k p.flags below inside ne;
            })
    ]

-- After setFlags the word is the given one and the array is in step with it, whether or not they
-- were in step before.
pub set_flags-Resets :
    (mode_flags : ℕ) (p : FilePermissions)
    → InStep (set_flags mode_flags p) × ((set_flags mode_flags p).flags ≡ mode_flags)
unfolding set_flags fill_array
set_flags-Resets mode_flags p = elim (Bool-cases (nat_beq p.flags mode_flags)) [
  | inl same ↦ rw same (λ index below. refl, (nat_beq_iff p.flags mode_flags).0 same)
  | inr new ↦ rw new (λ index below. refl, refl)
]

-- Whether the list names the permission of an index.
abbrev pub named : ℕ → List FilePermission → Bool
named index [] = false
named index (permission ∷ permissions) =
    nat_beq index (underlying permission) || named index permissions

abbrev pub Grants : List FilePermission → FilePermissions → FilePermissions → Type 0
Grants init_list p p' =
    InStep p'
    × ((index : ℕ) → index < size → p'.array index ≡ (p.array index || named index init_list))

set-outside :
    (permission : FilePermission) (value : Bool) (p : FilePermissions)
    → ltb (underlying permission) size ≡ false
    → set permission value p ≡ p
unfolding set
set-outside permission value p outside = rw outside refl

granted_one :
    (permission : FilePermission) (p : FilePermissions)
    → InStep p
    → Grants (permission ∷ []) p (set permission true p)
granted_one permission p s = elim (Bool-cases (ltb (underlying permission) size)) [
  | inr outside ↦ rw (set-outside permission true p outside) (s, λ index below. ground arith)
  | inl inside ↦
      let sets = set-Sets permission true p (ground arith) s in
      (
        sets.in_step,
        λ index below. elim (Bool-cases (nat_beq index (underlying permission))) [
          | inl same ↦
              rw (same, (nat_beq_iff index (underlying permission)).0 same)
                (sets.here ∙ ground arith)
          | inr other ↦ rw other (sets.there index (λ e. ground arith) ∙ ground arith)
        ],
      )
]

or_regroup : (a b c d : Bool) → a ≡ (b || (c || false)) → (a || d) ≡ (b || (c || d))
or_regroup a true c d e = rw e refl
or_regroup a false true d e = rw e refl
or_regroup a false false d e = rw e refl

set_initial_permissions-Grants :
    (init_list : List FilePermission) (p : FilePermissions)
    → InStep p
    → Grants init_list p (set_initial_permissions init_list p)
unfolding set_initial_permissions
set_initial_permissions-Grants [] p s = (s, λ index below. ground arith)
set_initial_permissions-Grants (permission ∷ permissions) p s =
    let (s', one) = granted_one permission p s in
    let (s'', rest) = set_initial_permissions-Grants permissions (set permission true p) s' in
    (
      s'',
      λ index below.
          rest index below
          ∙ or_regroup ((set permission true p).array index) (p.array index)
              (nat_beq index (underlying permission)) (named index permissions) (one index below),
    )

-- The object made from a list of permissions has its array in step with its word, and an entry is
-- set exactly if the list names its permission.
pub from_list-Grants :
    (init_list : List FilePermission) → Grants init_list (from_mode_flags 0) (from_list init_list)
unfolding from_list from_mode_flags fill_array
from_list-Grants init_list = set_initial_permissions-Grants init_list _ (λ index below. refl)

-- The letters of `ls -l`, from the word alone.
abbrev letter : ℕ → ℕ → String → String
letter mode_flags flag shown = if has_flag mode_flags flag then shown else "-"

abbrev pub listing : ℕ → List String
listing m =
    letter m 0x100 "r"
    ∷ letter m 0x80 "w"
    ∷ letter m 0x40 "x"
    ∷ letter m 0x20 "r"
    ∷ letter m 0x10 "w"
    ∷ letter m 8 "x"
    ∷ letter m 4 "r"
    ∷ letter m 2 "w"
    ∷ letter m 1 "x"
    ∷ []

-- If the array is in step with the word, toString gives the nine letters of a long listing that
-- the word stands for.
pub to_string-listing : (p : FilePermissions) → InStep p → to_string p ≡ listing p.flags
unfolding to_string pieces_from piece
to_string-listing p s = rw (
  s 0 (omega arith),
  s 1 (omega arith),
  s 2 (omega arith),
  s 3 (omega arith),
  s 4 (omega arith),
  s 5 (omega arith),
  s 6 (omega arith),
  s 7 (omega arith),
  s 8 (omega arith),
)
