-- ===== src/Threads.antt =====
-- Handlers that run side by side: any number of callers, each with one request at a time, and the one
-- mutex of the module between them.
pub mod Serial
pub mod Replay
pub mod Requests4
pub mod Requests6
use network_lab.Common.{ℕ, ◌≡◌, Bool, true, false, List, [], ◌∷◌, ◌++◌, Returns, update}
use network_lab.Sysfs.{World, Sys}

-- What the handlers of a module do to its variables `C`: whether a request takes the mutex, and what it
-- replies and writes from the variables that it reads.
pub record Handlers (C R A : Type 0) : Type 0 where
  pub serve : R → Sys C A
  pub takes_mutex : R → Bool
  pub effect : R → C → A × C
  pub serve-effect :
      (r : R) (w : World C)
      → w.locked ≡ false
      → Returns
          (λ b.
            (b.0 ≡ (effect r w.config).0)
            × (b.1.config ≡ (effect r w.config).1)
            × (b.1.locked ≡ false))
          (serve r w)
  pub without_mutex : (r : R) (c : C) → takes_mutex r ≡ false → (effect r c).1 ≡ c

-- Where a caller stands; behind the mutex it has read the variables.
pub data Pc (C R : Type 0) : Type 0 where
  outside : Pc C R
  waiting : R → Pc C R
  inside : R → C → Pc C R

-- `history` holds the requests that were served, with their replies, in order.
pub record System (C R A : Type 0) : Type 0 where
  pub config : C
  pub locked : Bool
  pub pc : ℕ → Pc C R
  pub history : List (R × A)

module _ {C R A : Type 0} (h : Handlers C R A) where
  abbrev pub begin : C → System C R A
  begin c = record { config = c; locked = false; pc = λ i. outside; history = [] }

  -- One step of caller `i`.
  pub data Move (s : System C R A) : System C R A → Type 0 where
    ask :
        (i : ℕ) (r : R)
        → s.pc i ≡ outside
        → h.takes_mutex r ≡ true
        → Move s (record s { pc = update s.pc i (waiting r) })
    refuse :
        (i : ℕ) (r : R)
        → s.pc i ≡ outside
        → h.takes_mutex r ≡ false
        → Move s (record s { history = s.history ++ (r, (h.effect r s.config).0) ∷ [] })
    lock :
        (i : ℕ) (r : R)
        → s.pc i ≡ waiting r
        → s.locked ≡ false
        → Move s (record s { locked = true; pc = update s.pc i (inside r s.config) })
    unlock :
        (i : ℕ) (r : R) (c : C)
        → s.pc i ≡ inside r c
        → Move s (record {
          config = (h.effect r c).1;
          locked = false;
          pc = update s.pc i outside;
          history = s.history ++ (r, (h.effect r c).0) ∷ [];
        })

  pub data Moves (s : System C R A) : System C R A → Type 0 where
    still : Moves s s
    after : {t u : System C R A} → Moves s t → Move t u → Moves s u
