-- ===== src/Message/Args.antt =====
-- What is read back from an argument that was written.
use libfep.Base.{
  ℕ, ◌%◌, ◌^◌, ◌≤◌, ◌<◌, ◌≡◌, length, replicate, ok, ◌>>=◌, arith, get_elem?-set_self, length-set,
}
use libfep.FepString.{FepString, zeroed}
use libfep.Message.{
  ControlMessage, Attribute, alloc_args, attribute_bytes, exact, le32, write_arg, read_arg,
  write_uint32_arg, write_attribute_arg, read_uint32_arg, read_attribute_arg,
}

pub alloc_few : (n : ℕ) → n ≤ 3 → alloc_args n ≡ ok (replicate n zeroed)
unfolding alloc_args
alloc_few n h = ground arith

read_arg-write_arg :
    (m : ControlMessage) (i : ℕ) (a : FepString)
    → i < length m.args
    → (write_arg m i a >>= λ m'. read_arg m' i) ≡ ok a
unfolding write_arg read_arg
read_arg-write_arg m i a h = ground (arith, get_elem?-set_self m.args i a, length-set m.args i a)

-- A 32-bit argument is read back as it was written, if its index is within the array.
pub read_uint32_arg-write_uint32_arg :
    (m : ControlMessage) (i v : ℕ)
    → i < length m.args
    → v < 2 ^ 32
    → (write_uint32_arg m i v >>= λ m'. read_uint32_arg m' i) ≡ ok v
unfolding write_uint32_arg read_uint32_arg
read_uint32_arg-write_uint32_arg m i v h b =
    ground
      (arith, get_elem?-set_self m.args i (exact (le32 v)), length-set m.args i (exact (le32 v)))

abbrev pub low_bytes : Attribute → Attribute
low_bytes a = record {
  type = a.type % 256;
  value = a.value % 256;
  start_index = a.start_index % 256;
  end_index = a.end_index % 256;
}

-- An attribute argument at an index within the array comes back with only the low eight bits of
-- each field: the reader keeps the 32-bit fields in a `uint8_t`.
pub read_attribute_arg-write_attribute_arg :
    (m : ControlMessage) (i : ℕ) (a : Attribute)
    → i < length m.args
    → (write_attribute_arg m i a >>= λ m'. read_attribute_arg m' i) ≡ ok (low_bytes a)
unfolding write_attribute_arg read_attribute_arg
read_attribute_arg-write_attribute_arg m i a h =
    let arg = exact (attribute_bytes a) in
    ground (arith, get_elem?-set_self m.args i arg, length-set m.args i arg)
