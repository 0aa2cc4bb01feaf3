-- ===== src/Core/Error.antt =====
-- crates/turbovault-core/src/error.rs: the error type and `Result<T>`. The texts of the messages
-- are not modelled; an I/O error keeps the kinds that the callers test.
use turbovault.Common.{◌≡◌, refl, ◌⊎◌, inl, inr}

pub data IoError : Type 0 where
  not_found crosses_devices other_kind : IoError

pub data Error : Type 0 where
  io : IoError → Error
  file_not_found invalid_path path_traversal_attempt protected_path file_too_large : Error
  parse_error config_error validation_error concurrency_error not_found_in_graph other wrapped :
      Error

-- `std::result::Result<T, E>`, and the alias that fixes the error type.
pub data Fallible {u} (E : Type 0) (T : Type u) : Type u where
  ok : (value : T) → Fallible E T
  err : (error : E) → Fallible E T

abbrev pub Result {u} : Type u → Type u
Result = Fallible Error

pub Result-cases {u} :
    {E : Type 0} {T : Type u} (r : Fallible E T)
    → ((value : T) × (r ≡ ok value)) ⊎ ((error : E) × (r ≡ err error))
Result-cases (ok value) = inl (value, refl)
Result-cases (err error) = inr (error, refl)

-- The `?` operator, binding the value that it unwraps or dropping it.
infixl 5 ◌>>=◌
abbrev pub ◌>>=◌ {u w} :
    {E : Type 0} {T : Type u} {W : Type w} → Fallible E T → (T → Fallible E W) → Fallible E W
err error >>= next = err error
ok value >>= next = next value

infixl 5 ◌>>◌
abbrev pub ◌>>◌ {w} :
    {E : Type 0} {W : Type w} → Fallible E (Unit {0}) → Fallible E W → Fallible E W
first >> next = first >>= λ done. next

pub >>=-eq-ok {u w} :
    {E : Type 0} {T : Type u} {W : Type w} {result : W} (first : Fallible E T)
    (next : T → Fallible E W)
    → (first >>= next) ≡ ok result
    → (value : T) × (first ≡ ok value) × (next value ≡ ok result)
>>=-eq-ok (err error) next given = cc
>>=-eq-ok (ok value) next given = (value, refl, given)
