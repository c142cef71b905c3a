-- ===== src/Process/Signals/Delivery.antt =====
-- Delivery of signals in process_dispatch, and the return from a handler.
use cyanurus.Base.{
  ℕ, zero, suc, ◌+◌, ◌-◌, ◌*◌, ◌%◌, ◌≤◌, ◌<◌, bit_and, ◌≡◌, refl, ap, ◌∙◌, ◌⊎◌, inl, inr, List, [],
  ◌∷◌, ◌++◌, arith, length, get_or, take, length-append, update, update_self, update_ne, u32, add32,
  sub32,
}
use cyanurus.Bits.{complement, bit_and-align8}
use cyanurus.Process.Signals.{
  Action, Context, Current, Memory, context_words, words_context, mask_words, store_words,
  load_words, push_sp, push_to_stack, pop_from_stack, enter_handler, process_sigreturn,
}

store_words-outside :
    (m : Memory) (a : ℕ) (ws : List ℕ) (x : ℕ)
    → (x < a) ⊎ (a + 4 * length ws ≤ x)
    → store_words m a ws x ≡ m x
unfolding store_words
store_words-outside m a [] x h = refl
store_words-outside m a (w ∷ ws) x h =
    let later : store_words (update m a w) (a + 4) ws x ≡ update m a w x =
      store_words-outside (update m a w) (a + 4) ws x (ground (arith, h)) in
    later ∙ update_ne m a x w (λ z. absurd (ground (arith, h, z)))

load_words-store_words :
    (m : Memory) (a : ℕ) (ws : List ℕ) → load_words (store_words m a ws) a (length ws) ≡ ws
unfolding store_words load_words
load_words-store_words m a [] = refl
load_words-store_words m a (w ∷ ws) =
    rw
      (
        store_words-outside (update m a w) (a + 4) ws a (inl (omega arith)),
        update_self m a w,
        load_words-store_words (update m a w) (a + 4) ws,
      )
      refl

-- Words below the loaded ones can be stored.
load_words-above :
    (m : Memory) (a : ℕ) (ws : List ℕ) (b n : ℕ)
    → a + 4 * length ws ≤ b
    → load_words (store_words m a ws) b n ≡ load_words m b n
unfolding load_words
load_words-above m a ws b zero h = refl
load_words-above m a ws b (suc n) h =
    rw (store_words-outside m a ws b (inr h), load_words-above m a ws (b + 4) n (omega arith)) refl

push_sp_lem :
    (sp size : ℕ) → sp < u32 → size + 8 ≤ sp → (push_sp sp size ≡ (sp - size) - (sp - size) % 8)
push_sp_lem sp size h k =
    let e : sub32 sp size ≡ sp - size = omega arith in
    rw e (bit_and-align8 (sp - size) (omega arith))

take-length : (xs ys : List ℕ) (n : ℕ) → length xs ≡ n → take n (xs ++ ys) ≡ xs
take-length [] ys zero h = refl
take-length [] ys (suc n) h = absurd (omega arith)
take-length (x ∷ xs) ys zero h = absurd (omega arith)
take-length (x ∷ xs) ys (suc n) h = ap (λ t. x ∷ t) (take-length xs ys n (omega arith))

get_or-length :
    (xs ys : List ℕ) (n i d : ℕ) → length xs ≡ n → get_or (xs ++ ys) (n + i) d ≡ get_or ys i d
get_or-length [] ys zero i d h = let e : 0 + i ≡ i = omega arith in rw e refl
get_or-length [] ys (suc n) i d h = absurd (omega arith)
get_or-length (x ∷ xs) ys zero i d h = absurd (omega arith)
get_or-length (x ∷ xs) ys (suc n) i d h =
    let e : suc n + i ≡ suc (n + i) = omega arith in rw e (get_or-length xs ys n i d (omega arith))

-- A context with its 13 registers, as words and back.
words_context-context_words : (c : Context) → length c.r ≡ 13 → words_context (context_words c) ≡ c
words_context-context_words c h =
    let ends = c.sp ∷ c.lr ∷ c.pc ∷ [] in
    rw
      (
        take-length c.r ends 13 h,
        get_or-length c.r ends 13 0 0 h,
        get_or-length c.r ends 13 1 0 h,
        get_or-length c.r ends 13 2 0 h,
      )
      refl

loaded :
    (m : Memory) (a : ℕ) (ws : List ℕ) (n : ℕ)
    → length ws ≡ n
    → load_words (store_words m a ws) a n ≡ ws
loaded m a ws n h = rw (← h) (load_words-store_words m a ws)

pop_up :
    (sp1 sp2 : ℕ)
    → sp2 + 8 ≡ sp1
    → sp1 % 8 ≡ 0
    → sp1 + 8 < u32
    → bit_and (add32 (add32 sp2 8) 7) (complement 32 7) ≡ sp1
pop_up sp1 sp2 e aligned small =
    let sum : add32 (add32 sp2 8) 7 ≡ sp1 + 7 = omega arith in
    rw sum (omega (arith, bit_and-align8 (sp1 + 7) (omega arith)))

-- A program that enters a handler and returns from it by sigreturn has the context and the mask it
-- was interrupted with, and no word at or above its stack pointer has changed: for a stack pointer
-- with at least 128 bytes below it.
pub process_sigreturn-enter_handler :
    (ksa : Action) (sig : ℕ) (c : Current)
    → length c.context.r ≡ 13
    → 128 ≤ c.context.sp
    → c.context.sp < u32
    → let entered = enter_handler ksa sig c in
      let back = process_sigreturn entered.context entered in
      (back.context ≡ c.context)
      × (back.signal ≡ c.signal)
      × ((x : ℕ) → c.context.sp ≤ x → back.memory x ≡ c.memory x)
unfolding process_sigreturn enter_handler push_to_stack pop_from_stack
process_sigreturn-enter_handler ksa sig c r13 room word =
    let words : length (context_words c.context) ≡ 17 =
      omega
        (arith, length-append c.context.r (c.context.sp ∷ c.context.lr ∷ c.context.pc ∷ []), r13) in
    let sp1 = push_sp c.context.sp (length (context_words c.context) * 4) in
    let at1 : sp1 ≡ (c.context.sp - 68) - (c.context.sp - 68) % 8 =
      rw words (push_sp_lem c.context.sp 68 word (omega arith)) in
    let sp2 = push_sp sp1 8 in
    let at2 : sp2 + 8 ≡ sp1 =
      omega (arith, push_sp_lem sp1 8 (omega (arith, at1)) (omega (arith, at1)), at1) in
    let m1 = store_words c.memory sp1 (context_words c.context) in
    let up : bit_and (add32 (add32 sp2 8) 7) (complement 32 7) ≡ sp1 =
      pop_up sp1 sp2 at2 (omega (arith, at1)) (omega (arith, at1)) in
    let mask : load_words (store_words m1 sp2 (mask_words c.signal.mask)) sp2 2
        ≡ mask_words c.signal.mask =
      load_words-store_words m1 sp2 (mask_words c.signal.mask) in
    let saved : load_words (store_words m1 sp2 (mask_words c.signal.mask)) sp1 17
        ≡ context_words c.context =
      load_words-above m1 sp2 (mask_words c.signal.mask) sp1 17 (omega (arith, at2))
      ∙ loaded c.memory sp1 (context_words c.context) 17 words in
    (
      rw (up, saved) (words_context-context_words c.context r13),
      rw mask refl,
      λ x h.
          store_words-outside m1 sp2 (mask_words c.signal.mask) x (inr (omega (arith, at1, at2)))
          ∙ store_words-outside c.memory sp1 (context_words c.context) x
              (inr (omega (arith, at1, words))),
    )
