-- ===== src/Doxyxml/Compound/Text.antt =====
-- What `description` of doxyxml/text.py sees of a built object.
pub mod Inline
pub mod Paragraph
use aegir_sdr.Common.{Bool, true, false, Option, none, some, Text, codes, eq_text}
use aegir_sdr.Doxyxml.Compound.Object.{
  Value, missing, string, number, list, object, mixed_container, Values, Fields, no_fields, field,
  get_field,
}
use aegir_sdr.Doxyxml.Description
use aegir_sdr.Doxyxml.Description.{Bit, Bits}

-- The attribute `name`, where it is a text
abbrev pub text_of : Option Value → Option Text
text_of (some (string s)) = some s
text_of _ = none

-- `content` goes before `content_`; an object with neither, a number and a list have nothing to describe.
abbrev pub object_bit : Option Text → Option Bits → Option Bits → Bit
object_bit name (some bs) other = Bit.content name bs
object_bit name none (some bs) = Bit.content name bs
object_bit name none none = Bit.unknown

unfoldable mutual
  pub bit_of : Value → Bit
  bit_of missing = Bit.unknown
  bit_of (string s) = Bit.string s
  bit_of (number n) = Bit.unknown
  bit_of (list vs) = Bit.unknown
  bit_of (mixed_container c name v) = Bit.value (some name) (bit_of v)
  bit_of (object c fs) =
      object_bit (text_of (get_field fs (codes "name"))) (find_bits fs (codes "content"))
        (find_bits fs (codes "content_"))

  pub find_bits : Fields → Text → Option Bits
  find_bits no_fields name = none
  find_bits (field n v fs) name = elim (eq_text n name) [
    | true ↦ some (list_bits v)
    | false ↦ find_bits fs name
  ]

  pub list_bits : Value → Bits
  list_bits (list vs) = bits_of vs
  list_bits missing = Bits.nil
  list_bits (string s) = Bits.nil
  list_bits (number n) = Bits.nil
  list_bits (mixed_container c name v) = Bits.nil
  list_bits (object c fs) = Bits.nil

  pub bits_of : Values → Bits
  bits_of Values.nil = Bits.nil
  bits_of (Values.cons v vs) = Bits.cons (bit_of v) (bits_of vs)
