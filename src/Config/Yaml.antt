-- ===== src/Config/Yaml.antt =====
-- The library yaml-cpp, as far as src/nssf_app/nssf_config.cpp uses it. Its exceptions derive from
-- `std::exception`, and the parsing functions catch that, so a call that throws gives `none`.
use oai_cn5g_nssf.Base.{String, ℤ, Bool, Option, none, some, List, if◌then◌else◌}

-- The result of `YAML::LoadFile`; `malformed` stands for an exception other than `BadFile`.
pub data Loaded (Node : Type 0) : Type 0 where
  loaded : Node → Loaded Node
  bad_file : Loaded Node
  malformed : Loaded Node

pub record Yaml : Type 1 where
  pub Node : Type 0
  -- `node[key]`: for a missing key of a map a node that is not defined
  pub child : Node → String → Option Node
  -- `node[key]` on a node that is not const: also for a missing key of a node that is not defined
  pub child_or_new : Node → String → Option Node
  -- the nodes from `begin()` to `end()`
  pub children : Node → List Node
  -- the conversion to `bool`
  pub is_defined : Node → Bool
  -- `as<std::string>()` and `as<int32_t>()`
  pub as_string : Node → Option String
  pub as_int32 : Node → Option ℤ
  pub load_file : String → Loaded Node

infixl 5 ◌>>=◌
abbrev pub ◌>>=◌ : {A B : Type 0} → Option A → (A → Option B) → Option B
none >>= f = none
some a >>= f = f a

-- The setter of an attribute, called if there is a value.
abbrev pub set_if : {A B : Type 0} → (A → B → A) → A → Option B → A
set_if set a none = a
set_if set a (some b) = set a b

module _ (y : Yaml) where
  open y use {Node, child, is_defined, as_string, as_int32}

  -- `node[key].as<std::string>()`
  abbrev pub text_at : Node → String → Option String
  text_at n key = do c ← child n key; as_string c

  -- `node[key].as<int32_t>()`
  abbrev pub int_at : Node → String → Option ℤ
  int_at n key = do c ← child n key; as_int32 c

  -- `if (node[key]) … node[key].as<std::string>()`
  abbrev pub text_if_at : Node → String → Option (Option String)
  text_if_at n key = do
    c ← child n key
    if is_defined c then (do t ← as_string c; some (some t)) else some none
