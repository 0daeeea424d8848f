-- ===== src/Net/Message.antt =====
-- rkvm-net/src/lib.rs: `Update`, what the server sends to a client.
use rkvm.Prelude.{ℕ, List, Option}
use rkvm.Input.Key.{Key}
use rkvm.Input.Event.{ℤ, RelAxis, AbsAxis, AbsInfo, Event}

-- The fields of `CreateDevice` after its id.
pub record Description : Type 0 where
  pub name : List ℕ
  pub vendor : ℕ
  pub product : ℕ
  pub version : ℕ
  pub rel : List RelAxis
  pub abs : List (AbsAxis × AbsInfo)
  pub keys : List Key
  pub delay : Option ℤ
  pub period : Option ℤ

pub data Update : Type 0 where
  create_device : ℕ → Description → Update
  destroy_device : ℕ → Update
  event : ℕ → Event → Update
  events : ℕ → List Event → Update
  set_key_state : ℕ → List Key → Update
  ping : Update
