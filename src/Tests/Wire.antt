-- ===== src/Tests/Wire.antt =====
-- The protobuf theorems at concrete inputs.
use libsignal_zig.Prelude.{
  ◌+◌, ◌*◌, ◌≡◌, ◌≢◌, refl, inl, List, [], ◌∷◌, ◌++◌, replicate, arith, ◌-◌, ◌^◌,
}
use libsignal_zig.Prelude.Bytes.{write_le}
use libsignal_zig.Prelude.Result.{Result, ok, err, panic, stuck, overflow}
use libsignal_zig.Proto.{Field, encode_varint, decode_varint, next_field, parse_fields}
use libsignal_zig.Proto.Varint.{decode_varint_overlong}
use libsignal_zig.Proto.Fields.{encode_fields, parse_fields-encode_fields, run_fields, at}
use libsignal_zig.Proto.Writes.{varint_field, bytes_field, fixed64_field}
use libsignal_zig.Proto.Malformed.{parse_fields-ne-stuck, next_field_unnamed, next_field_huge}

decode_varint_overlong_example :
    (decode_varint (at 0 (replicate 10 0x80 ++ 1 ∷ [])) ≡ panic)
    × (decode_varint (at 0 (replicate 9 0xff ++ 2 ∷ [])) ≢ err overflow)
decode_varint_overlong_example =
    decode_varint_overlong (replicate 10 0x80) (1 ∷ []) 0 (at 0 (replicate 9 0xff ++ 2 ∷ [])) refl
      (omega arith)

-- A loop that keeps every field.
abbrev keep : List Field → Field → Result (List Field)
keep fs f = ok (f ∷ fs)

abbrev fields : List Field
fields = varint_field 1 300 ∷ bytes_field 2 (7 ∷ 8 ∷ []) ∷ fixed64_field 3 5 ∷ []

parse_fields-encode_fields_example :
    parse_fields keep (encode_fields fields) [] ≡ run_fields keep fields []
unfolding write_le
parse_fields-encode_fields_example =
    parse_fields-encode_fields keep fields [] (omega arith)
      (unfold encode_fields encode_varint in omega arith)

parse_fields-ne-stuck_example : parse_fields keep (8 ∷ 1 ∷ 99 ∷ []) [] ≢ stuck
parse_fields-ne-stuck_example = parse_fields-ne-stuck keep (λ s f e. cc) (8 ∷ 1 ∷ 99 ∷ []) []

next_field_unnamed_example : next_field (at 0 (encode_varint (1 * 8 + 3) ++ 5 ∷ [])) ≡ panic
next_field_unnamed_example =
    next_field_unnamed 1 3 0 (5 ∷ []) (omega arith) (omega arith) (inl refl)

next_field_huge_example :
    next_field (at 1 (encode_varint (1 * 8 + 2) ++ (encode_varint (2 ^ 64 - 1) ++ []))) ≡ panic
next_field_huge_example =
    next_field_huge 1 (2 ^ 64 - 1) 1 [] (omega arith) (omega arith) (omega arith) (omega arith)
