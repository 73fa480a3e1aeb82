-- ===== src/Settings/Entries.antt =====
-- What `ReadConfigFile` of ARST_QUOTE/ARSTMain.cpp reads.
use cta_alristrol_gallardo_v.Base.{
  ℕ, zero, suc, ◌+◌, ◌≡◌, refl, sym, ap, subst, ◌∙◌, some, List, [], ◌∷◌, ◌++◌, append-nil,
  append_assoc, arith, length,
}
use cta_alristrol_gallardo_v.Servers.{ServerInfo, Config}
use cta_alristrol_gallardo_v.Settings.{
  ◌>>=◌, KeyFile, Reading, read, failed, null_string, integer, key_name, ip_prefix, port_prefix,
  name_prefix, read_entry, read_entries, read_config_file, opened, server_count_key, assembled,
}

-- The three strings of an entry stand in the file.
pub record IsEntryOf (k : KeyFile) (section : List ℕ) (n : ℕ) (i : ServerInfo) : Type 0 where
  pub host : k.get_string section (key_name ip_prefix n) ≡ some i.host
  pub para : k.get_string section (key_name port_prefix n) ≡ some i.para
  pub name : k.get_string section (key_name name_prefix n) ≡ some i.name

-- The entries of the numbers from `n` on.
abbrev pub Entries : KeyFile → List ℕ → ℕ → List ServerInfo → Type 0
Entries k section n [] = Unit {0}
Entries k section n (i ∷ is) = IsEntryOf k section n i × Entries k section (n + 1) is

read_entry-eq-read :
    (k : KeyFile) (section : List ℕ) (n : ℕ) (i : ServerInfo)
    → read_entry k section n ≡ read i
    → IsEntryOf k section n i
unfolding read_entry
read_entry-eq-read k section n i e = record {
  host = ground arith;
  para = ground arith;
  name = ground arith;
}

>>=-eq-read :
    {A B : Type 0} (m : Reading A) (f : A → Reading B) (b : B)
    → (m >>= f) ≡ read b
    → (a : A) × (m ≡ read a) × (f a ≡ read b)
>>=-eq-read (read a) f b e = (a, refl, e)
>>=-eq-read failed f b e = cc
>>=-eq-read null_string f b e = cc

read_entries-eq-read :
    (turns i : ℕ) (k : KeyFile) (section : List ℕ) (infos r : List ServerInfo)
    → read_entries turns i k section infos ≡ read r
    → (is : List ServerInfo) × (r ≡ infos ++ is)
      × (length is ≡ turns)
      × Entries k section (i + 1) is
unfolding read_entries
read_entries-eq-read zero i k section infos r e = ([], ground (arith, append-nil infos), refl, tt)
read_entries-eq-read (suc turns) i k section infos r e =
    let (x, e1, e2) = >>=-eq-read (read_entry k section (i + 1)) _ r e in
    let (is, q, l, en) = read_entries-eq-read turns (i + 1) k section (infos ++ x ∷ []) r e2 in
    (
      x ∷ is,
      q ∙ append_assoc infos (x ∷ []) is,
      ap suc l,
      (read_entry-eq-read k section (i + 1) x e1, en),
    )

opened-eq-read :
    {A : Type 0} (k : KeyFile) (r : Reading A) (a : A) → opened k r ≡ read a → r ≡ read a
opened-eq-read k r a e = ground arith

read_injective : (c d : Config) → read c ≡ read d → c ≡ d
read_injective c d e = cc

-- If `ReadConfigFile` succeeds, the configuration holds as many entries as it counts, and entry
-- number i of them has the strings of the file under the keys "IP", "PORT" and "NAME" with i in at
-- least two digits, counted from 1.
pub read_config_file-Entries :
    (k : KeyFile) (section : List ℕ) (c : Config)
    → read_config_file k section ≡ read c
    → (length c.server_info ≡ c.server_count) × Entries k section 1 c.server_info
unfolding read_config_file
read_config_file-Entries k section c e =
    let n = integer k section server_count_key in
    let all : (read_entries n 0 k section [] >>= λ infos. read (assembled k section infos))
        ≡ read c =
      opened-eq-read k _ c e in
    let (infos, e1, e2) = >>=-eq-read (read_entries n 0 k section []) _ c all in
    let (is, q, l, en) = read_entries-eq-read n 0 k section [] infos e1 in
    subst Whole (read_injective (assembled k section infos) c e2)
      (ap length q ∙ l, subst (Entries k section 1) (sym q) en)
  where
    Whole : Config → Type 0
    Whole d = (length d.server_info ≡ d.server_count) × Entries k section 1 d.server_info
