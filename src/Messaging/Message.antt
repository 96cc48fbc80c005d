-- ===== src/Messaging/Message.antt =====
-- src/include/messaging/messageBase.hpp: a payload of any type goes into the queue behind
-- `MessageBase` and comes back by a downcast.
use boilerplate_thread_messa.Prelude.{◌≡◌, Option, none, some}
use Prim.Native.String.{String}

-- `M` stands for all objects behind `MessageBase`. A type `T` is a payload by the wrapper
-- `MessageWrapper<T>`, by the downcast to it, and by the name that `typeid` gives.
pub record Payload {ℓ κ} (M : Type ℓ) (T : Type κ) : Type (ℓ ⊔ κ) where
  pub wrap : T → M
  pub unwrap : M → Option T
  pub type_name : String
  pub unwrap_wrap : (x : T) → unwrap (wrap x) ≡ some x
  pub wrap_unwrap : (m : M) (x : T) → unwrap m ≡ some x → m ≡ wrap x

-- `std::shared_ptr<MessageBase>`, which may be empty.
abbrev pub SharedPtr {ℓ} : Type ℓ → Type ℓ
SharedPtr M = Option M

-- `dynamic_pointer_cast<MessageWrapper<T>>` and `->contents_`.
abbrev pub dynamic_pointer_cast {ℓ κ} :
    {M : Type ℓ} {T : Type κ} ⦃p : Payload M T⦄ → SharedPtr M → Option T
dynamic_pointer_cast none = none
dynamic_pointer_cast ⦃p⦄ (some m) = p.unwrap m
