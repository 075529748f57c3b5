-- ===== src/Canonical/Values.antt =====
-- What src/canonical-json.ts calls `unknown`: the values of the language that it tells apart. A
-- number is a natural number that prints in full.
use x.Prelude.{ℕ, String, Bool, List}

mutual
  pub data Value : Type 0 where
    undefined : Value
    null : Value
    bool : Bool → Value
    num : ℕ → Value
    -- NaN and the infinities
    not_finite : Value
    str : String → Value
    arr : Elements → Value
    -- an object whose prototype is `Object.prototype` or null
    obj : Properties → Value
    -- a `Uint8Array`
    bytes : List ℕ → Value
    -- any other object
    instance_of_class : Value
    -- a value of another `typeof`
    other : String → Value

  pub data Elements : Type 0 where
    nil : Elements
    cons : Value → Elements → Elements

  -- The own properties, in the order in which the object has them.
  pub data Properties : Type 0 where
    end : Properties
    property : String → Value → Properties → Properties
