-- ===== src/Xous/Ticktimer/Mutexes.antt =====
-- What the unlock of a mutex does (src/xous/services/ticktimer.rs, unlock_mutex).
use yove.Base.{
  ℕ, ◌≡◌, ◌≢◌, refl, sym, ap, ◌∙◌, Bool, true, false, Option, some, none, List, [], ◌∷◌, update,
  update_self, subst, arith,
}
use yove.Base.Exec.{Outcome, ok, err, panic, ◌>>=◌}
use yove.Xous.Services.{ScalarResult, scalar1}
use yove.Xous.Ticktimer.{Ticktimer, queue_or_default, unlock_mutex}

-- The threads that wait for a mutex.
abbrev pub queue : Ticktimer → ℕ → List ℕ
queue t i = queue_or_default (t.mutex_unlockers i)

-- The turn of the first of the threads that waited.
abbrev pub HandedOver : List ℕ → List ℕ → List ℕ → List ℕ → Type 0
HandedOver [] rest woken woken_before = (rest ≡ []) × (woken ≡ woken_before)
HandedOver (waiter ∷ waiting) rest woken woken_before =
    (rest ≡ waiting) × (woken ≡ waiter ∷ woken_before)

-- What an unlock leaves of a mutex that was held. `later` is any state that has the mutex as it was left.
abbrev pub Released : ℕ → Ticktimer → Ticktimer → Type 0
Released i t u =
    HandedOver (queue t i) (queue u i) u.woken t.woken
    × ((j : ℕ) → j ≢ i → (u.mutexes j ≡ t.mutexes j) × (queue u j ≡ queue t j))
    × ((later : Ticktimer) → later.mutexes i ≡ u.mutexes i → unlock_mutex i later ≡ panic)

-- The outcomes of an unlock.
abbrev pub Unlocked : ℕ → Ticktimer → Option Bool → Outcome Ticktimer ⊥ ScalarResult → Type 0
Unlocked i t (some true) (ok r u) = (r ≡ scalar1 0) × Released i t u
Unlocked i t (some true) (err e u) = ⊥
Unlocked i t (some true) panic = ⊥
Unlocked i t (some false) o = o ≡ panic
Unlocked i t none o = o ≡ panic

refused_lem : (u : Ticktimer) (i : ℕ) → u.mutexes i ≡ some false → unlock_mutex i u ≡ panic
unfolding unlock_mutex ◌>>=◌
refused_lem u i h = ground (arith, h)

unknown_lem : (u : Ticktimer) (i : ℕ) → u.mutexes i ≡ none → unlock_mutex i u ≡ panic
unfolding unlock_mutex ◌>>=◌
unknown_lem u i h = ground (arith, h)

-- The state that an unlock leaves, by what waited.
abbrev after : ℕ → Option (List ℕ) → Ticktimer → Ticktimer
after i none t = record t { mutexes = update t.mutexes i (some false) }
after i (some []) t = record t { mutexes = update t.mutexes i (some false) }
after i (some (waiter ∷ rest)) t = record t {
  mutexes = update t.mutexes i (some false);
  mutex_unlockers = update t.mutex_unlockers i (some rest);
  woken = waiter ∷ t.woken;
}

unlock_lem :
    (t : Ticktimer) (i : ℕ) (q : Option (List ℕ))
    → t.mutexes i ≡ some true
    → t.mutex_unlockers i ≡ q
    → unlock_mutex i t ≡ ok (scalar1 0) (after i q t)
unfolding unlock_mutex ◌>>=◌
unlock_lem t i none h e = ground (arith, h, e)
unlock_lem t i (some []) h e = ground (arith, h, e)
unlock_lem t i (some (waiter ∷ rest)) h e = ground (arith, h, e)

update_other : {A : Type 0} (f : ℕ → A) (i j : ℕ) (a : A) → j ≢ i → update f i a j ≡ f j
update_other f i j a n = ground (arith, n)

after-Released :
    (t : Ticktimer) (i : ℕ) (q : Option (List ℕ))
    → t.mutex_unlockers i ≡ q
    → Released i t (after i q t)
after-Released t i none e = (
  subst
      (λ (o : Option (List ℕ)).
        HandedOver (queue_or_default o) (queue_or_default o) t.woken t.woken)
      (sym e) (refl, refl),
  λ j n. (update_other t.mutexes i j (some false) n, refl),
  λ later h. refused_lem later i (h ∙ update_self t.mutexes i (some false)),
)
after-Released t i (some []) e = (
  subst
      (λ (o : Option (List ℕ)).
        HandedOver (queue_or_default o) (queue_or_default o) t.woken t.woken)
      (sym e) (refl, refl),
  λ j n. (update_other t.mutexes i j (some false) n, refl),
  λ later h. refused_lem later i (h ∙ update_self t.mutexes i (some false)),
)
after-Released t i (some (waiter ∷ rest)) e = (
  subst
      (λ (o : Option (List ℕ)).
        HandedOver (queue_or_default o) (queue (after i (some (waiter ∷ rest)) t) i)
          (waiter ∷ t.woken) t.woken)
      (sym e) (ap queue_or_default (update_self t.mutex_unlockers i (some rest)), refl),
  λ j n. (
    update_other t.mutexes i j (some false) n,
    ap queue_or_default (update_other t.mutex_unlockers i j (some rest) n),
  ),
  λ later h. refused_lem later i (h ∙ update_self t.mutexes i (some false)),
)

by_mutex :
    (t : Ticktimer) (i : ℕ) (mutex : Option Bool)
    → t.mutexes i ≡ mutex
    → Unlocked i t mutex (unlock_mutex i t)
by_mutex t i none h = unknown_lem t i h
by_mutex t i (some false) h = refused_lem t i h
by_mutex t i (some true) h =
    subst (Unlocked i t (some true)) (sym (unlock_lem t i (t.mutex_unlockers i) h refl))
      (refl, after-Released t i (t.mutex_unlockers i) refl)

-- The unlock of a mutex that is unknown or not held panics. The unlock of one that is held answers
-- 0; it wakes the first of the threads that wait, if any, and keeps the others in their order; and
-- it leaves the other mutexes as they were. The mutex is then free, although the woken thread was
-- told that it holds it: in every later state that has the mutex as the unlock left it, the next
-- unlock panics.
pub unlock_mutex-Unlocked : (t : Ticktimer) (i : ℕ) → Unlocked i t (t.mutexes i) (unlock_mutex i t)
unlock_mutex-Unlocked t i = by_mutex t i (t.mutexes i) refl
