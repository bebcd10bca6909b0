-- ===== src/Fat16/File/Writing/Links.antt =====
-- kernel/fs/fat16.c: the table after one round of the loop of `fat16_write_file`: the new cluster ends
-- the chain, and the one before it leads to it.
use null_os.Prelude.{
  ℕ, zero, suc, ◌%◌, ◌<◌, ◌≡◌, ◌≢◌, refl, sym, ◌∙◌, List, length, get_or, set, arith, length-set,
  get_or-set_self, get_or-set_ne,
}
use null_os.Fat16.{Volume, entry, set_entry, end_of_chain}
use null_os.Fat16.File.{link_after}

-- The table after the new cluster `c` is linked behind `prev`, where that is not 0.
pub new_table : (prev c : ℕ) → Volume → List ℕ
new_table prev c v = (set_entry c end_of_chain (link_after prev c (set_entry c end_of_chain v))).fat

pub record Linked (v : Volume) (prev c : ℕ) (fat : List ℕ) : Type 0 where
  pub size : length fat ≡ length v.fat
  pub at_new : get_or fat c 0 ≡ end_of_chain
  pub elsewhere : (d : ℕ) → d ≢ c → d ≢ prev → get_or fat d 0 ≡ entry v d

module _ (v : Volume) (c : ℕ) (inside : c < length v.fat) where
  pub new_table-first : Linked v 0 c (new_table 0 c v)
  unfolding new_table link_after
  new_table-first = record {
    size = length-set (set v.fat c end_of_chain) c end_of_chain ∙ length-set v.fat c end_of_chain;
    at_new =
        get_or-set_self (set v.fat c end_of_chain) c end_of_chain 0
          (omega (arith, length-set v.fat c end_of_chain));
    elsewhere = λ d ne _.
        get_or-set_ne (set v.fat c end_of_chain) c d end_of_chain 0 (λ e. ne (sym e))
        ∙ get_or-set_ne v.fat c d end_of_chain 0 (λ e. ne (sym e));
  }

  pub new_table-next : (p : ℕ) → Linked v (suc p) c (new_table (suc p) c v)
  unfolding new_table link_after
  new_table-next p = record {
    size =
        length-set (set (set v.fat c end_of_chain) (suc p) (c % 65536)) c end_of_chain
        ∙ length-set (set v.fat c end_of_chain) (suc p) (c % 65536)
        ∙ length-set v.fat c end_of_chain;
    at_new = get_or-set_self (set (set v.fat c end_of_chain) (suc p) (c % 65536)) c end_of_chain 0 (
        omega (
          arith,
          length-set (set v.fat c end_of_chain) (suc p) (c % 65536),
          length-set v.fat c end_of_chain,
        ));
    elsewhere = λ d ne other.
        get_or-set_ne (set (set v.fat c end_of_chain) (suc p) (c % 65536)) c d end_of_chain 0
          (λ e. ne (sym e))
        ∙ get_or-set_ne (set v.fat c end_of_chain) (suc p) d (c % 65536) 0 (λ e. other (sym e))
        ∙ get_or-set_ne v.fat c d end_of_chain 0 (λ e. ne (sym e));
  }

  pub new_table-link :
      (p : ℕ)
      → suc p ≢ c
      → suc p < length v.fat
      → c < 65536
      → get_or (new_table (suc p) c v) (suc p) 0 ≡ c
  unfolding new_table link_after
  new_table-link p ne lt small =
      get_or-set_ne (set (set v.fat c end_of_chain) (suc p) (c % 65536)) c (suc p) end_of_chain 0
        (λ e. ne (sym e))
      ∙ get_or-set_self (set v.fat c end_of_chain) (suc p) (c % 65536) 0
          (omega (arith, lt, length-set v.fat c end_of_chain))
      ∙ omega (arith, small)

pub linked_volume :
    (prev c : ℕ) (v : Volume)
    → set_entry c end_of_chain (link_after prev c (set_entry c end_of_chain v))
      ≡ record v { fat = new_table prev c v }
unfolding new_table link_after
linked_volume zero c v = refl
linked_volume (suc p) c v = refl
