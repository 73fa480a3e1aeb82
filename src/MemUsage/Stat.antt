-- ===== src/MemUsage/Stat.antt =====
-- Which fields of /proc/self/stat `mem_usage` of ARST_QUOTE/ARSTMain.cpp gives.
use cta_alristrol_gallardo_v.Base.{
  ℕ, ◌*◌, ◌/◌, ◌<◌, ◌≡◌, refl, sym, ap, ◌∙◌, some, List, [], ◌∷◌, ◌++◌, append_assoc, arith, length,
  All, length-append, All-append, pos, ◌^◌, ◌+◌, ◌%◌, ◌≤◌, inl, inr, ltb, Bool-cases, ltb→lt,
  ltb_false→le,
}
use cta_alristrol_gallardo_v.Text.{decimal}
use cta_alristrol_gallardo_v.MemUsage.{usage_text, mem_usage, Usage}
use cta_alristrol_gallardo_v.MemUsage.Numbers.{
  IsBlack, IsWord, spaced, decimal-IsWord, mem_usage-words,
}

-- The name of the program in its parentheses.
abbrev pub bracketed : List ℕ → List ℕ
bracketed name = b'(' ∷ name ++ b')' ∷ []

-- A line of /proc/self/stat as the kernel prints it: the number of the process, its name, and the
-- fields from the state to `itrealvalue`, then `starttime`, `vsize`, `rss` and more.
pub record Stat : Type 0 where
  pub pid : ℕ
  pub name : List ℕ
  pub fields : List (List ℕ)
  pub starttime : ℕ
  pub vsize : ℕ
  pub rss : ℕ
  pub more : List ℕ

abbrev pub stat_line : Stat → List ℕ
stat_line s =
    decimal s.pid
    ++ 32
      ∷ (bracketed s.name
          ++ 32
            ∷ spaced s.fields (
                decimal s.starttime
                ++ 32 ∷ (decimal s.vsize ++ 32 ∷ (decimal s.rss ++ 32 ∷ s.more))))

-- The fields have no white space, and the numbers are those of the kernel's types.
pub record IsStat (s : Stat) : Type 0 where
  pub number : length s.fields ≡ 19
  pub words : All IsWord s.fields
  pub starttime_fits : s.starttime < 2 ^ 64
  pub vsize_fits : s.vsize < 2 ^ 63
  pub rss_fits : s.rss < 2 ^ 63

spaced-append :
    (ws : List (List ℕ)) (w rest : List ℕ) → spaced ws (w ++ 32 ∷ rest) ≡ spaced (ws ++ w ∷ []) rest
spaced-append [] w rest = refl
spaced-append (v ∷ ws) w rest = ap (λ s. v ++ 32 ∷ s) (spaced-append ws w rest)

bracketed-IsWord : (name : List ℕ) → All IsBlack name → IsWord (bracketed name)
bracketed-IsWord name b = (omega arith, (refl, All-append IsBlack name (b')' ∷ []) b (refl, tt)))

mem_usage-line :
    (s : Stat) (page_size : ℕ)
    → IsStat s
    → All IsBlack s.name
    → mem_usage (some (stat_line s)) page_size
      ≡ some (record { vm_bytes = s.vsize; resident_kb = pos (page_size / 1024 * s.rss) })
mem_usage-line s page_size v b =
    ap (λ t. mem_usage (some (decimal s.pid ++ 32 ∷ (bracketed s.name ++ 32 ∷ t))) page_size)
      (spaced-append s.fields (decimal s.starttime) _)
    ∙ mem_usage-words page_size (decimal s.pid)
        (bracketed s.name ∷ s.fields ++ decimal s.starttime ∷ []) s.vsize s.rss s.more
        (omega (arith, length-append s.fields (decimal s.starttime ∷ []), v.number))
        (decimal-IsWord s.pid)
        (
          bracketed-IsWord s.name b,
          All-append IsWord s.fields (decimal s.starttime ∷ []) v.words
              (decimal-IsWord s.starttime, tt),
        )
        (omega (arith, v.vsize_fits)) v.rss_fits

-- The megabytes that are printed are nearest to the size.
usage_text-nearest :
    (u : Usage)
    → (m : ℕ) × (usage_text u ≡ decimal m)
      × (m * 2 ^ 20 ≤ u.vm_bytes + 2 ^ 19)
      × (u.vm_bytes ≤ m * 2 ^ 20 + 2 ^ 19)
unfolding usage_text
usage_text-nearest u = elim (Bool-cases (ltb (u.vm_bytes % 2 ^ 20) (2 ^ 19))) [
  | inl below ↦ (u.vm_bytes / 2 ^ 20, rw below refl, omega arith, omega (arith, ltb→lt _ _ below))
  | inr up ↦ elim (Bool-cases (ltb (2 ^ 19) (u.vm_bytes % 2 ^ 20))) [
    | inl above ↦ (
      u.vm_bytes / 2 ^ 20 + 1,
      rw up (rw above refl),
      omega (arith, ltb→lt _ _ above),
      omega arith,
    )
    | inr even ↦
        let l = ltb_false→le _ _ up in
        let r = ltb_false→le _ _ even in
        (
          u.vm_bytes / 2 ^ 20 + u.vm_bytes / 2 ^ 20 % 2,
          rw up (rw even refl),
          omega arith,
          omega arith,
        )
  ]
]

-- A line of the kernel's, of a program with no white space in its name: `mem_usage` gives the size
-- and the resident pages, these in kilobytes; and the megabytes that are printed of the size are
-- the nearest to it.
pub mem_usage-reads :
    (s : Stat) (page_size : ℕ)
    → IsStat s
    → All IsBlack s.name
    → (u : Usage) × (m : ℕ) × (mem_usage (some (stat_line s)) page_size ≡ some u)
      × (u.vm_bytes ≡ s.vsize)
      × (u.resident_kb ≡ pos (page_size / 1024 * s.rss))
      × (usage_text u ≡ decimal m)
      × (m * 2 ^ 20 ≤ s.vsize + 2 ^ 19)
      × (s.vsize ≤ m * 2 ^ 20 + 2 ^ 19)
mem_usage-reads s page_size v b =
    let u : Usage = record { vm_bytes = s.vsize; resident_kb = pos (page_size / 1024 * s.rss) } in
    let (m, t, lo, hi) = usage_text-nearest u in
    (u, m, mem_usage-line s page_size v b, refl, refl, t, lo, hi)

-- The same of a program whose name has one blank, between two words: the fields are taken one too
-- early. `mem_usage` gives the time of the start as the size, and the size as the resident pages.
pub mem_usage-shifted :
    (s : Stat) (a b : List ℕ) (page_size : ℕ)
    → IsStat s
    → s.name ≡ a ++ 32 ∷ b
    → All IsBlack a
    → All IsBlack b
    → mem_usage (some (stat_line s)) page_size
      ≡ some (record { vm_bytes = s.starttime; resident_kb = pos (page_size / 1024 * s.vsize) })
mem_usage-shifted s a b page_size v n x y =
    let more =
      spaced s.fields
        (decimal s.starttime ++ 32 ∷ (decimal s.vsize ++ 32 ∷ (decimal s.rss ++ 32 ∷ s.more))) in
    ap (λ t. mem_usage (some (decimal s.pid ++ 32 ∷ (b'(' ∷ t))) page_size)
      (ap (λ m. (m ++ b')' ∷ []) ++ 32 ∷ more) n
        ∙ append_assoc (a ++ 32 ∷ b) (b')' ∷ []) (32 ∷ more)
        ∙ append_assoc a (32 ∷ b) (b')' ∷ 32 ∷ more)
        ∙ ap (λ t. a ++ 32 ∷ t) (sym (append_assoc b (b')' ∷ []) (32 ∷ more))))
    ∙ mem_usage-words page_size (decimal s.pid) ((b'(' ∷ a) ∷ (b ++ b')' ∷ []) ∷ s.fields)
        s.starttime s.vsize (decimal s.rss ++ 32 ∷ s.more) (omega (arith, v.number))
        (decimal-IsWord s.pid)
        (
          (omega arith, (refl, x)),
          (
            (
              omega (arith, length-append b (b')' ∷ [])),
              All-append IsBlack b (b')' ∷ []) y (refl, tt),
            ),
            v.words,
          ),
        )
        v.starttime_fits v.vsize_fits
