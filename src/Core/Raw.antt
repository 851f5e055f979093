-- ===== src/Core/Raw.antt =====
-- netd-core/src/raw.rs: a registry key as the pure modules read it. A text is the list of its characters.
use netd.Base.{ℕ, List}

-- `i64`
pub data ℤ : Type 0 where
  pos : ℕ → ℤ
  negsuc : ℕ → ℤ

pub data RawValue : Type 0 where
  int : ℤ → RawValue
  str : List ℕ → RawValue
  list : List (List ℕ) → RawValue
  other : RawValue

mutual
  pub data RawKey : Type 0 where
    raw_key : List ℕ → List (List ℕ × RawValue) → RawKeys → RawKey

  -- The children.
  pub data RawKeys : Type 0 where
    no_keys : RawKeys
    one_more : RawKey → RawKeys → RawKeys
