-- ===== src/Pdef/Types.antt =====
-- src/pdef/pdef_types.h: the types that the PDEF parser, compiler and runtime share.
use rxtracenetcap.Prelude.{ℕ, Bool, Option, List, Str}

pub data FieldType : Type 0 where
  field_type_uint8 field_type_uint16 field_type_uint32 field_type_uint64 : FieldType
  field_type_int8 field_type_int16 field_type_int32 field_type_int64 : FieldType
  field_type_bytes field_type_string field_type_varbytes field_type_nested : FieldType

pub data Endian : Type 0 where
  endian_big endian_little : Endian

pub data EndianMode : Type 0 where
  endian_mode_big endian_mode_little endian_mode_auto : EndianMode

pub data EndianType : Type 0 where
  endian_type_unknown endian_type_big endian_type_little : EndianType

pub record Field : Type 0 where
  pub name : Str
  pub type : FieldType
  pub offset : ℕ
  pub size : ℕ
  pub endian : Endian
  pub is_variable : Bool
  pub is_array : Bool
  pub array_size : ℕ

pub record StructDef : Type 0 where
  pub name : Str
  pub fields : List Field
  pub min_size : ℕ
  pub has_variable : Bool

pub data OpCode : Type 0 where
  op_load_u8 op_load_u16_be op_load_u16_le op_load_u32_be op_load_u32_le : OpCode
  op_load_u64_be op_load_u64_le : OpCode
  op_load_i8 op_load_i16_be op_load_i16_le op_load_i32_be op_load_i32_le : OpCode
  op_load_i64_be op_load_i64_le : OpCode
  op_cmp_eq op_cmp_ne op_cmp_gt op_cmp_ge op_cmp_lt op_cmp_le op_cmp_mask : OpCode
  op_jump_if_false op_jump op_return_true op_return_false : OpCode

pub record Instruction : Type 0 where
  pub opcode : OpCode
  pub offset : ℕ
  pub operand : ℕ
  pub operand2 : ℕ
  pub jump_target : ℕ

-- A null code pointer is `none`; the length fields are the lengths of the lists.
pub record FilterRule : Type 0 where
  pub name : Str
  pub struct_name : Str
  pub bytecode : List Instruction
  pub bytecode_be : Option (List Instruction)
  pub bytecode_le : Option (List Instruction)
  pub min_packet_size : ℕ
  pub sliding_window : Bool
  pub sliding_max_offset : ℕ

-- The fields that the match of a packet reads or writes.
pub record ProtocolDef : Type 0 where
  pub name : Str
  pub default_endian : Endian
  pub filters : List FilterRule
  pub endian_mode : EndianMode
  pub detected_endian : EndianType
