-- ===== src/CApi/Errors.antt =====
-- What the caller finds in its `gbs_error`.
use getbiblesword.Prelude.{
  ℕ, zero, suc, ◌+◌, ◌-◌, ◌≡◌, refl, arith, true, false, Option, none, some, [], ◌∷◌, ◌++◌, Bytes,
  All, length, length-append, length-take, length-drop, take, drop, min, ◌==◌, if◌then◌else◌,
}
use getbiblesword.CApi.{
  error_message_capacity, Error, error_storage_is_valid, set_message, set_error,
}

-- The text as a C string: up to the first NUL.
unfoldable pub c_string : Bytes → Bytes
c_string [] = []
c_string (b ∷ bytes) = let rest = c_string bytes in if b == 0 then [] else b ∷ rest

abbrev pub IsText : ℕ → Type 0
IsText b = (b == 0) ≡ false

c_string-take :
    (n : ℕ) (text rest : Bytes)
    → All IsText text
    → c_string (take n text ++ (0 ∷ rest)) ≡ take n text
unfolding c_string
c_string-take zero text rest h = refl
c_string-take (suc n) [] rest h = refl
c_string-take (suc n) (b ∷ text) rest h = rw (h.0, c_string-take n text rest h.1)

-- A caller reads a message without NUL back, cut at 511 bytes, and the array keeps its 512 bytes.
pub set_message-c_string :
    (text message : Bytes)
    → All IsText text
    → length message ≡ error_message_capacity
    → (c_string (set_message text message) ≡ take (min (length text) 511) text)
      × (length (set_message text message) ≡ error_message_capacity)
unfolding set_message
set_message-c_string text message h e =
    let size = min (length text) (error_message_capacity - 1) in
    (
      c_string-take size text (drop (size + 1) message) h,
      omega (
        arith,
        length-append (take size text) (0 ∷ drop (size + 1) message),
        length-take size text,
        length-drop (size + 1) message,
        e,
      ),
    )

-- What stands in the `status` of an error that is large enough.
pub record Reports (status : ℕ) (e : Option Error) : Type 0 where
  pub reported : (error : Error) → e ≡ some error → error.status ≡ status

pub set_error-Reports :
    (e : Option Error) (status : ℕ) (text : Bytes)
    → error_storage_is_valid e ≡ true
    → Reports status (set_error e status text)
unfolding set_error error_storage_is_valid
set_error-Reports none status text h = record { reported = λ error e. cc }
set_error-Reports (some old) status text h = ground arith

pub set_error-is_valid :
    (e : Option Error) (status : ℕ) (text : Bytes)
    → error_storage_is_valid (set_error e status text) ≡ error_storage_is_valid e
unfolding set_error error_storage_is_valid
set_error-is_valid none status text = refl
set_error-is_valid (some old) status text = ground arith

-- Storage that is too small is left as it is.
pub set_error-small :
    (e : Option Error) (status : ℕ) (text : Bytes)
    → error_storage_is_valid e ≡ false
    → set_error e status text ≡ e
unfolding set_error error_storage_is_valid
set_error-small none status text h = refl
set_error-small (some old) status text h = ground arith
