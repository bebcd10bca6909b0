-- ===== src/Vmm/Words.antt =====
-- Words of memory: a word that is written reads back, and no other changes.
use native.Mathlib.Decide.{ℕ_discrete}
use null_os.Prelude.{ℕ, zero, suc, ◌+◌, ◌*◌, ◌/◌, ◌%◌, ◌≤◌, ◌<◌, ◌≡◌, refl, ap, ◌∙◌, ◌≢◌, arith}
use null_os.Vmm.{Memory, put, write_words, zero_4kb}

pub put_self : (a w : ℕ) (m : Memory) (b : ℕ) → b ≡ a → put a w m b ≡ w
unfolding put
put_self a w m b same = ground (arith, same)

pub put_ne : (a w : ℕ) (m : Memory) (b : ℕ) → b ≢ a → put a w m b ≡ m b
unfolding put
put_ne a w m b ne = ground (arith, ne)

module _ (page : ℕ) (f : ℕ → ℕ) where
  pub write_words-outside :
      (n i : ℕ) (m : Memory) (a : ℕ)
      → ((j : ℕ) → i ≤ j → j < i + n → a ≢ page + j * 4)
      → write_words n i page f m a ≡ m a
  unfolding write_words
  write_words-outside zero i m a out = refl
  write_words-outside (suc n) i m a out =
      write_words-outside n (i + 1) (put (page + i * 4) (f i) m) a
        (λ j lo hi. out j (omega arith) (omega arith))
      ∙ put_ne (page + i * 4) (f i) m a (out i (omega arith) (omega arith))

  pub write_words-inside :
      (n i : ℕ) (m : Memory) (j a : ℕ)
      → i ≤ j
      → j < i + n
      → a ≡ page + j * 4
      → write_words n i page f m a ≡ f j
  unfolding write_words
  write_words-inside zero i m j a lo hi here = absurd (omega arith)
  write_words-inside (suc n) i m j a lo hi here = elim (ℕ_discrete i j) [
    | yes first ↦
        write_words-outside n (i + 1) (put (page + i * 4) (f i) m) a
          (λ k lo' hi' e. absurd (omega (arith, e, here, first)))
        ∙ put_self (page + i * 4) (f i) m a (omega (arith, here, first))
        ∙ ap f first
    | no later ↦
        write_words-inside n (i + 1) (put (page + i * 4) (f i) m) j a (omega arith) (omega arith)
          here
  ]

-- A page that is cleared reads 0, and the words of other pages stay.
pub zero_4kb-inside :
    (page : ℕ) (m : Memory) (i a : ℕ) → i < 1024 → a ≡ page + i * 4 → zero_4kb page m a ≡ 0
unfolding zero_4kb
zero_4kb-inside page m i a lt here =
    write_words-inside page (λ i. 0) 1024 0 m i a (omega arith) (omega arith) here

pub zero_4kb-outside :
    (page : ℕ) (m : Memory) (a : ℕ)
    → page % 4096 ≡ 0
    → a / 4096 * 4096 ≢ page
    → zero_4kb page m a ≡ m a
unfolding zero_4kb
zero_4kb-outside page m a aligned out =
    write_words-outside page (λ i. 0) 1024 0 m a (λ j lo hi e. out (omega (arith, e, aligned, hi)))
