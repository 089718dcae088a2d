-- ===== src/Hid.antt =====
-- drivers/tt_riing_quad/device_io.rs and the fingerprint of drivers/mod.rs. `HidDevice` and `HidApi`
-- are the types of the hidapi package: parameters, with the operating system behind them in `State`.
use tt_riingd.Common.{
  ℕ, List, [], ◌∷◌, Option, String, Result, Error, ok, err, panic, incomplete_read, replicate, Eq,
  ◌==◌, ◌&&◌, Bool, ◌≡◌, true, ap, ◌↔◌, arith, nat_eq, string_eq, option_eq, option_beq_iff,
}

pub record HardwareFingerprint : Type 0 where
  pub vendor_id : ℕ  -- u16
  pub product_id : ℕ  -- u16
  pub serial : Option String

abbrev pub fingerprint_beq : HardwareFingerprint → HardwareFingerprint → Bool
fingerprint_beq f g =
    f.vendor_id == g.vendor_id && (f.product_id == g.product_id && f.serial == g.serial)

pub fingerprint_beq_iff : (f g : HardwareFingerprint) → (fingerprint_beq f g ≡ true) ↔ (f ≡ g)
fingerprint_beq_iff f g = ground (arith, option_beq_iff f.serial g.serial)

instance abbrev pub fingerprint_eq : Eq HardwareFingerprint
fingerprint_eq = record { beq = fingerprint_beq; beq_iff = fingerprint_beq_iff }

-- An open device. `read_timeout` gives the bytes that arrived, at most as many as were asked for,
-- and none at a timeout.
pub record HidDevice : Type 1 where
  pub State : Type 0
  pub write : List ℕ → State → Result ℕ × State
  pub read_timeout : ℕ → State → Result (List ℕ) × State
  pub device_info : State → Result HardwareFingerprint

module _ (D : HidDevice) where
  -- Code that talks to the device and may fail.
  abbrev pub Io : Type 0 → Type 0
  Io A = D.State → Result A × D.State

abbrev pub resume {ℓ} :
    {S : Type 0} {A : Type 0} {B : Type ℓ} → (A → S → Result B × S) → Result A → S → Result B × S
resume f (ok a) s = f a s
resume f (err e) s = (err e, s)
resume f panic s = (panic, s)

infixl 5 ◌>>=◌ ◌>>◌
abbrev pub ◌>>=◌ {ℓ} :
    {S : Type 0} {A : Type 0} {B : Type ℓ}
    → (S → Result A × S)
    → (A → S → Result B × S)
    → S
    → Result B × S
◌>>=◌ m f s = resume f (m s).0 (m s).1

abbrev pub ◌>>◌ {ℓ} :
    {S : Type 0} {B : Type ℓ} → (S → Result (Unit {0}) × S) → (S → Result B × S) → S → Result B × S
m >> k = m >>= λ _. k

abbrev pub lift : {S A : Type 0} → Result A → S → Result A × S
lift r s = (r, s)

-- What a read leaves in a buffer: the bytes that came, and behind them what was there.
abbrev pub overlay : List ℕ → List ℕ → List ℕ
overlay [] buf = buf
overlay (b ∷ bytes) [] = []
overlay (b ∷ bytes) (_ ∷ buf) = b ∷ overlay bytes buf

abbrev pub received : List ℕ → List ℕ → Result (List ℕ)
received [] buf = err incomplete_read
received (b ∷ bytes) buf = ok (overlay (b ∷ bytes) buf)

module _ (D : HidDevice) where
  -- `DeviceIO::read` for `HidDevice`, into a buffer of 193 zeros.
  unfoldable pub read : Io D (List ℕ)
  read = do bytes ← D.read_timeout 193; lift (received bytes (replicate 193 0))

module _ {ℓ} {S A : Type 0} {B : Type ℓ} where
  -- A step that succeeds hands its result and its state on.
  pub >>=-of_ok :
      (m : S → Result A × S) (f : A → S → Result B × S) (s : S) {a : A} {s' : S}
      → m s ≡ (ok a, s')
      → (m >>= f) s ≡ f a s'
  >>=-of_ok m f s h = ap (λ p. resume f p.0 p.1) h

  -- A step that fails ends the code with its error.
  pub >>=-of_err :
      (m : S → Result A × S) (f : A → S → Result B × S) (s : S) {e : Error} {s' : S}
      → m s ≡ (err e, s')
      → (m >>= f) s ≡ (err e, s')
  >>=-of_err m f s h = ap (λ p. resume f p.0 p.1) h
