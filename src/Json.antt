-- ===== src/Json.antt =====
-- Values of type `unknown` and JSON documents: what `JSON.parse` can return. Numbers are the integers.
pub mod Stringify
use l0_worker.Base.{String, Bool, Option, none, some, ◌==◌, if◌then◌else◌}
use l0_worker.Base.Int.{ℤ}

mutual
  pub data Json : Type 0 where
    null : Json
    bool : Bool → Json
    num : ℤ → Json
    str : String → Json
    arr : Items → Json
    obj : Fields → Json

  pub data Items : Type 0 where
    nil : Items
    cons : Json → Items → Items

  pub data Fields : Type 0 where
    end : Fields
    field : String → Json → Fields → Fields

-- A property of an object, `undefined` if there is none.
unfoldable pub property : String → Fields → Option Json
property k end = none
property k (field j v fs) = if j == k then some v else property k fs
