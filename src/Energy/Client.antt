-- ===== src/Energy/Client.antt =====
-- The helpers of chain/x/energy/client/cli/tx.go that make messages of the arguments of a command.
pub mod Roots
mod Tests
use energychain_node.Prelude.{
  ℕ, ◌%◌, Bool, true, false, ◌&&◌, ◌||◌, not, Option, none, some, List, [], ◌∷◌, ◌++◌, map, Bytes,
  codes, length, leb, eqb, take, ◌==◌, list_eq, ℕ_eq, if◌then◌else◌,
}
use energychain_node.Outcome.{Outcome, ok, err}
use energychain_node.Energy.Types.{BatchItem}

-- The space bytes of ASCII.
abbrev pub is_space : ℕ → Bool
is_space c = (leb 9 c && leb c 13) || eqb c 32

unfoldable pub trim_left : Bytes → Bytes
trim_left [] = []
trim_left (c ∷ cs) = let rest = trim_left cs in if is_space c then rest else c ∷ cs

unfoldable pub trim_right : Bytes → Bytes
trim_right [] = []
trim_right (c ∷ cs) = let rest = trim_right cs in if rest == [] && is_space c then [] else c ∷ rest

-- `strings.TrimSpace` on ASCII.
abbrev pub trim_space : Bytes → Bytes
trim_space s = trim_right (trim_left s)

abbrev pub is_hex_digit : ℕ → Bool
is_hex_digit c =
    (leb b'0' c && leb c b'9') || ((leb b'a' c && leb c b'f') || (leb b'A' c && leb c b'F'))

unfoldable pub all_hex_digits : Bytes → Bool
all_hex_digits [] = true
all_hex_digits (c ∷ cs) = is_hex_digit c && all_hex_digits cs

unfoldable pub is_hex : Bytes → Bool
is_hex s = if not (eqb (length s % 2) 0) || eqb (length s) 0 then false else all_hex_digits s

-- `normaliseHex`, on the text without the space around it.
unfoldable pub with_prefix : Bytes → Bytes
with_prefix s =
    if s == []
    then s
    else if take 2 s == codes "0x" || take 2 s == codes "0X"
    then s
    else if is_hex s
    then codes "0x" ++ s
    else s

unfoldable pub normalise_hex : Bytes → Bytes
normalise_hex s = with_prefix (trim_space s)

pub data ItemsError : Type 0 where
  invalid_items_json : ItemsError

-- The two shapes that `parseBatchItems` reads.
pub record RichItem : Type 0 where
  pub data_hash : Bytes
  pub metadata : Bytes

abbrev pub rich_item : RichItem → BatchItem
rich_item r = record { data_hash = normalise_hex r.data_hash; metadata = r.metadata }

abbrev pub plain_item : Bytes → BatchItem
plain_item h = record { data_hash = normalise_hex h; metadata = [] }

-- The rich form counts if it is read and its first item has a hash.
abbrev pub rich_form : Option (List RichItem) → Option (List BatchItem)
rich_form none = none
rich_form (some []) = none
rich_form (some (r ∷ rs)) = if r.data_hash == [] then none else some (map rich_item (r ∷ rs))

-- `json.Unmarshal` into a list of either shape is given: `none` is its error.
module _ (read_rich : Bytes → Option (List RichItem))
    (read_plain : Bytes → Option (List Bytes)) where
  unfoldable pub parse_batch_items : Bytes → Outcome ItemsError (List BatchItem)
  parse_batch_items raw =
      let text = trim_space raw in
      let plain : Outcome ItemsError (List BatchItem) = elim (read_plain text) [
        | none ↦ err invalid_items_json
        | some hashes ↦ ok (map plain_item hashes)
      ] in
      if text == [] || text == codes "[]"
      then ok []
      else elim (rich_form (read_rich text)) [ some items ↦ ok items | none ↦ plain ]
