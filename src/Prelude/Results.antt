-- ===== src/Prelude/Results.antt =====
-- Runs that may not return: `none` stands for a run that goes on for ever.
use mathlib.Core.Path.{◌≡◌, refl}
use mathlib.Core.Option.{Option, none, some}

infixl 5 ◌>>=◌
abbrev pub ◌>>=◌ {ℓ κ} : {A : Type ℓ} {B : Type κ} → Option A → (A → Option B) → Option B
none >>= f = none
some a >>= f = f a

-- If the run returns, its result satisfies `P`.
pub data Returns {ℓ κ} {A : Type ℓ} (P : A → Type κ) : Option A → Type (ℓ ⊔ κ) where
  runs_on : Returns P none
  returns : {a : A} → P a → Returns P (some a)

pub of_Returns {ℓ κ} :
    {A : Type ℓ} {P : A → Type κ} {m : Option A} → ((a : A) → m ≡ some a → P a) → Returns P m
of_Returns {A} {P} {m} h = go m refl
  where
    go : (o : Option A) → m ≡ o → Returns P o
    go none e = runs_on
    go (some a) e = returns (h a e)

pub map-Returns {ℓ κ} :
    {A : Type ℓ} {P Q : A → Type κ} {m : Option A}
    → ((a : A) → P a → Q a)
    → Returns P m
    → Returns Q m
map-Returns g runs_on = runs_on
map-Returns g (returns {a} p) = returns (g a p)

-- What a second run satisfies may rest on what the first one does.
pub >>=-Returns {ℓ κ} :
    {A : Type ℓ} {P Q : A → Type κ} (m : Option A) (k : A → Option A)
    → Returns P m
    → ((a : A) → P a → Returns Q (k a))
    → Returns Q (m >>= k)
>>=-Returns none k f g = runs_on
>>=-Returns (some a) k (returns f) g = g a f

-- The run returns, and its result satisfies `P`.
pub data Ends {ℓ κ} {A : Type ℓ} (P : A → Type κ) : Option A → Type (ℓ ⊔ κ) where
  ends : {a : A} → P a → Ends P (some a)

pub map-Ends {ℓ κ} :
    {A : Type ℓ} {P Q : A → Type κ} {m : Option A} → ((a : A) → P a → Q a) → Ends P m → Ends Q m
map-Ends g (ends {a} p) = ends (g a p)

pub >>=-Ends {ℓ κ} :
    {A : Type ℓ} {P Q : A → Type κ} (m : Option A) (k : A → Option A)
    → Ends P m
    → ((a : A) → P a → Ends Q (k a))
    → Ends Q (m >>= k)
>>=-Ends none k e g = elim e [ ]
>>=-Ends (some a) k (ends p) g = g a p

pub both-Ends {ℓ κ} :
    {A : Type ℓ} {P Q : A → Type κ} {m : Option A}
    → Ends P m
    → Returns Q m
    → Ends (λ a. P a × Q a) m
both-Ends (ends p) (returns q) = ends (p, q)
