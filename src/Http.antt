-- ===== src/Http.antt =====
-- The HTTPException that the handlers raise, and code that may raise one.
use transport_lookout.Prelude.{ℕ, String, ◌≡◌, refl, Bool, true, false, if◌then◌else◌}

pub record HttpException : Type 0 where
  pub status_code : ℕ
  pub detail : String

pub data Result {ℓ} (A : Type ℓ) : Type ℓ where
  raise : HttpException → Result A
  ok : A → Result A

-- The rest of a handler runs after a call that did not raise.
infixl 5 ◌>>=◌
abbrev pub ◌>>=◌ {ℓ κ} : {B : Type κ} {A : Type ℓ} → Result B → (B → Result A) → Result A
raise e >>= rest = raise e
ok b >>= rest = rest b

abbrev pub http {ℓ} : {A : Type ℓ} → ℕ → String → Result A
http code detail = raise (record { status_code = code; detail = detail })

-- What a result that is no exception has been through.
module _ {ℓ} {A : Type ℓ} where
  abbrev result_or : A → Result A → A
  result_or a (ok b) = b
  result_or a (raise e) = a

  pub ok-injective : (a b : A) → ok a ≡ ok b → a ≡ b
  ok-injective a b h = λ i. result_or a (h i)

  pub guard-ok :
      (b : Bool) (code : ℕ) (detail : String) (m : Result A) (a : A)
      → (if b then http code detail else m) ≡ ok a
      → (b ≡ false) × (m ≡ ok a)
  guard-ok true code detail m a h = absurd (cc)
  guard-ok false code detail m a h = (refl, h)

  pub bind-ok {κ} :
      {B : Type κ} (m : Result B) (f : B → Result A) (a : A)
      → (m >>= f) ≡ ok a
      → (b : B) × (m ≡ ok b) × (f b ≡ ok a)
  bind-ok (ok b) f a h = (b, refl, h)
  bind-ok (raise e) f a h = absurd (cc)
