-- ===== src/Chat/Bouncer/Runs.antt =====
-- The lock under any interleaving of the threads that enter, leave and warn.
use tillerinobot.Prelude.{
  ℕ, ◌≡◌, refl, true, false, Option, none, some, List, [], ◌∷◌, ◌&&◌, arith, String, str_eq, eq_iff,
  if◌then◌else◌, ◌==◌,
}
use tillerinobot.Chat.Bouncer.{
  SemaphorePayload, Bouncer, get, try_enter, update_if_present, exit, unlocked,
}

-- The lock with the requests that are being worked on: the nick and the id of their events.
pub record System : Type 0 where
  pub bouncer : Bouncer
  pub active : List (String × ℕ)

abbrev pub without : String → ℕ → List (String × ℕ) → List (String × ℕ)
without nick id [] = []
without nick id ((n, i) ∷ rest) =
    if str_eq nick n && (i == id) then without nick id rest else (n, i) ∷ without nick id rest

abbrev warn : SemaphorePayload → Option SemaphorePayload
warn p = some (record p { warning_sent = true })

-- The cache keeps its references while they are in use.
pub data Step (s : System) : System → Type 0 where
  enter :
      (nick : String) (id now : ℕ)
      → (try_enter nick id now s.bouncer).1 ≡ true
      → Step s
          (record { bouncer = (try_enter nick id now s.bouncer).0; active = (nick, id) ∷ s.active })
  refuse :
      (nick : String) (id now : ℕ)
      → (try_enter nick id now s.bouncer).1 ≡ false
      → Step s (record s { bouncer = (try_enter nick id now s.bouncer).0 })
  leave :
      (nick : String) (id : ℕ)
      → Step s (record { bouncer = (exit nick id s.bouncer).0; active = without nick id s.active })
  warned :
      (nick : String) (id : ℕ)
      → Step s (record s { bouncer = (update_if_present nick id warn s.bouncer).0 })

pub data Reach (s : System) : System → Type 0 where
  here : Reach s s
  next : {t u : System} → Reach s t → Step t u → Reach s u

-- The ids of the events of one user that are being worked on.
abbrev pub holders : String → List (String × ℕ) → List ℕ
holders nick [] = []
holders nick ((n, id) ∷ rest) = if str_eq nick n then id ∷ holders nick rest else holders nick rest

abbrev pub holder : Option SemaphorePayload → List ℕ
holder none = []
holder (some p) = p.event_id ∷ []

-- The lock of each user names exactly the event of that user that is being worked on.
abbrev pub Exact : System → Type 0
Exact s = (nick : String) → holders nick s.active ≡ holder (get nick s.bouncer)

abbrev remove : ℕ → List ℕ → List ℕ
remove id [] = []
remove id (i ∷ rest) = if i == id then remove id rest else i ∷ remove id rest

holders-without :
    (nick n : String) (id : ℕ) (xs : List (String × ℕ))
    → holders n (without nick id xs)
      ≡ (if str_eq nick n then remove id (holders n xs) else holders n xs)
holders-without nick n id [] = ground (arith, eq_iff nick n)
holders-without nick n id ((m, i) ∷ xs) =
    ground (arith, eq_iff nick n, eq_iff nick m, eq_iff n m, holders-without nick n id xs)

Step-Exact : {s t : System} → Step s t → Exact s → Exact t
unfolding try_enter exit update_if_present get
Step-Exact {s} (enter nick id now e) h n = ground (arith, eq_iff nick n, eq_iff n nick, h n)
Step-Exact {s} (refuse nick id now e) h n = ground (arith, eq_iff nick n, h n)
Step-Exact {s} (leave nick id) h n =
    ground (arith, holders-without nick n id s.active, eq_iff nick n, h n)
Step-Exact {s} (warned nick id) h n = ground (arith, eq_iff nick n, h n)

-- While the cache keeps the references, at every moment of every run and for every user: nothing
-- is being worked on if the lock is free, and otherwise exactly the one event that the lock names.
pub Reach-Exact : {s : System} → Reach (record { bouncer = unlocked; active = [] }) s → Exact s
unfolding get
Reach-Exact here n = refl
Reach-Exact (next r st) n = Step-Exact st (Reach-Exact r) n
