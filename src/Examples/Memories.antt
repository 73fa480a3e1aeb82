-- ===== src/Examples/Memories.antt =====
-- Lines of /proc/self/stat, of programs with and without a blank in their names.
use cta_alristrol_gallardo_v.Base.{
  ℕ, zero, suc, ◌+◌, ◌*◌, ◌≤◌, ◌≡◌, refl, none, some, List, arith, replicate, All, pos, ◌^◌,
}
use cta_alristrol_gallardo_v.Text.{codes, decimal}
use cta_alristrol_gallardo_v.MemUsage.{Usage, mem_usage, usage_text}
use cta_alristrol_gallardo_v.MemUsage.Numbers.{IsWord}
use cta_alristrol_gallardo_v.MemUsage.Stat.{Stat, IsStat, stat_line, mem_usage-reads}

abbrev named : List ℕ → Stat
named name = record {
  pid = 4711;
  name = name;
  fields = replicate 19 (codes "S");
  starttime = 12345;
  vsize = 7340032;
  rss = 300;
  more = codes "0 1";
}

IsWord-replicate : (n : ℕ) → All IsWord (replicate n (codes "S"))
IsWord-replicate zero = tt
IsWord-replicate (suc n) = ((omega arith, (refl, tt)), IsWord-replicate n)

named-IsStat : (name : List ℕ) → IsStat (named name)
named-IsStat name = record {
  number = refl;
  words = IsWord-replicate 19;
  starttime_fits = omega arith;
  vsize_fits = omega arith;
  rss_fits = omega arith;
}

mem_usage-reads_example :
    (u : Usage) × (m : ℕ) × (mem_usage (some (stat_line (named (codes "quote")))) 4096 ≡ some u)
    × (u.vm_bytes ≡ 7340032)
    × (u.resident_kb ≡ pos 1200)
    × (usage_text u ≡ decimal m)
    × (m * 2 ^ 20 ≤ 7340032 + 2 ^ 19)
    × (7340032 ≤ m * 2 ^ 20 + 2 ^ 19)
mem_usage-reads_example =
    mem_usage-reads (named (codes "quote")) 4096 (named-IsStat (codes "quote"))
      (refl, (refl, (refl, (refl, (refl, tt)))))

-- 7 megabytes; and nothing is known of a file that cannot be opened.
usage_text_seven : usage_text (record { vm_bytes = 7340032; resident_kb = pos 0 }) ≡ codes "7"
unfolding usage_text decimal
usage_text_seven = refl

mem_usage_closed : mem_usage none 4096 ≡ none
unfolding mem_usage
mem_usage_closed = refl
