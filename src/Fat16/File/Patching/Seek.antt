-- ===== src/Fat16/File/Patching/Seek.antt =====
-- kernel/fs/fat16.c: the walk of `fat16_write_at` to the cluster of byte `pos` of the file.
use mathlib.Core.List.{Memᴰ}
use null_os.Prelude.{
  ℕ, zero, suc, ◌+◌, ◌*◌, ◌<◌, ◌≡◌, refl, subst, ◌∙◌, List, [], ◌∷◌, length, arith, some, Option,
}
use null_os.Fat16.{Volume, bytes_per_cluster}
use null_os.Fat16.Table.{Chain, Chain-once}
use null_os.Fat16.File.{Cursor, advance, seek_grow}
use null_os.Fat16.File.Reading.{Readable}
use null_os.Fat16.File.Writing.Clusters.{IsLaidOut}
use null_os.Fat16.File.Patching.Clusters.{OnVolume, Patched, Patched-next}
use null_os.Fat16.File.Patching.Loop.{in_file, advance-Chain}
use null_os.Fat16.File.Patching.Rounds.{Chain-at_next}

-- The walk has come to the cluster `n` of the chain `cs`: what is then stored in the clusters from there
-- on is stored `n` clusters later in the file.
pub record Sought (v : Volume) (n : ℕ) (cs : List ℕ) (out : Option Cursor × Volume) : Type 0 where
  pub place : ℕ
  pub behind : List ℕ
  pub result : out ≡ (some (in_file v place), v)
  pub chain : Chain v place (place ∷ behind)
  pub on_volume : OnVolume v.layout (place ∷ behind)
  pub count : n + length (place ∷ behind) ≡ length cs
  pub in_whole :
      (t : ℕ → List ℕ) (off : ℕ) (bytes : List ℕ)
      → Patched v v.disk.sectors (place ∷ behind) off bytes t
      → Patched v v.disk.sectors cs (n * bytes_per_cluster v + off) bytes t

seek_grow-step :
    (n : ℕ) (k k' : Cursor) (u : Volume)
    → advance k ≡ (some k', u)
    → seek_grow (suc n) k ≡ seek_grow n k'
unfolding seek_grow
seek_grow-step n k k' u e = rw (seek_grow, e) refl

pub seek_grow-Sought :
    (v : Volume) (h : IsLaidOut v.layout (length v.fat)) (n c : ℕ) (ds : List ℕ)
    → Readable v
    → Chain v c (c ∷ ds)
    → OnVolume v.layout (c ∷ ds)
    → n < length (c ∷ ds)
    → Sought v n (c ∷ ds) (seek_grow n (in_file v c))
unfolding seek_grow
seek_grow-Sought v h zero c ds r k on lt = record {
  place = c;
  behind = ds;
  result = refl;
  chain = k;
  on_volume = on;
  count = omega arith;
  in_whole = λ t off bytes p.
      subst (λ o. Patched v v.disk.sectors (c ∷ ds) o bytes t) {x = off}
        {y = 0 * bytes_per_cluster v + off} (omega arith) p;
}
seek_grow-Sought v h (suc n) c [] r k on lt = absurd (omega arith)
seek_grow-Sought v h (suc n) c (d ∷ ds) r k on lt = further (
    seek_grow-Sought v h n d ds r (Chain-at_next v c d ds k) (λ x m. on x (Memᴰ.tail m))
      (omega arith))
  where
    further :
        Sought v n (d ∷ ds) (seek_grow n (in_file v d))
        → Sought v (suc n) (c ∷ d ∷ ds) (seek_grow (suc n) (in_file v c))
    further s = record {
      place = s.place;
      behind = s.behind;
      result =
          seek_grow-step n (in_file v c) (in_file v d) v (advance-Chain v v c d ds refl k)
          ∙ s.result;
      chain = s.chain;
      on_volume = s.on_volume;
      count = omega (arith, s.count);
      in_whole = λ t off bytes p.
          subst (λ o. Patched v v.disk.sectors (c ∷ d ∷ ds) o bytes t)
            {x = bytes_per_cluster v + (n * bytes_per_cluster v + off)}
            {y = suc n * bytes_per_cluster v + off} (omega arith)
            (Patched-next v h c r on (Chain-once v c (d ∷ ds) k) (s.in_whole t off bytes p));
    }
