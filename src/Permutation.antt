-- ===== src/Permutation.antt =====
-- Permutations and their keys: `ShaderConstant`, `PermutationDefine`, `Permutation` and
-- `Permutation::key` (include/slangmake.hpp, src/slangmake_util.cpp).
pub mod Key
pub mod Expand
use slangmake.Prelude.{
  Bytes, bytes_lt, bytes_lt_asymm, bytes_lt_cotrans, List, [], ◌∷◌, ◌++◌, is_empty, if◌then◌else◌,
}
use slangmake.Prelude.Sort.{Order, sort}

pub record ShaderConstant : Type 0 where
  pub name : Bytes
  pub value : Bytes

pub data Kind : Type 0 where
  constant type : Kind

pub record PermutationDefine : Type 0 where
  pub name : Bytes
  pub values : List Bytes
  pub kind : Kind

pub record Permutation : Type 0 where
  pub constants : List ShaderConstant
  pub type_args : List ShaderConstant

abbrev pub empty : Permutation
empty = record { constants = []; type_args = [] }

-- The comparison that `key` and `expand` hand to `std::ranges::sort`.
abbrev pub by_name : Order ShaderConstant
by_name = record {
  less = λ a b. bytes_lt a.name b.name;
  asymm = λ a b. bytes_lt_asymm a.name b.name;
  cotrans = λ a b c. bytes_lt_cotrans a.name b.name c.name;
}

-- The loop of `joinSorted`: the rest of the list is behind a `_`.
join_rest : List ShaderConstant → Bytes
join_rest [] = []
join_rest (c ∷ cs) = b'_' ∷ c.name ++ (b'=' ∷ c.value ++ join_rest cs)

pub join : List ShaderConstant → Bytes
unfolding join_rest
join [] = []
join (c ∷ cs) = c.name ++ (b'=' ∷ c.value ++ join_rest cs)

unfoldable pub join_sorted : List ShaderConstant → Bytes
unfolding join sort
join_sorted v = join (sort by_name v)

-- `out += '|' + joinSorted(typeArgs)`, unless there is no type argument.
type_part : List ShaderConstant → Bytes
unfolding join_sorted
type_part ts = if is_empty ts then [] else b'|' ∷ join_sorted ts

unfoldable pub key : Permutation → Bytes
unfolding join_sorted type_part
key p = join_sorted p.constants ++ type_part p.type_args
