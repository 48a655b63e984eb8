-- ===== src/Server/Codec.antt =====
-- pkg/server/grpc_codec.go: the codec that passes frames on as they are, and leaves other messages
-- to the codec that it is given.
use cruiser.Base.{Outcome, ok, err, panic, other}
use cruiser.Server.Grpc.{Bytes}

-- A value that is given to a codec, or filled by it: a frame, a protobuf message, or another one.
-- `M` is the type of messages.
pub data Value (M : Type 0) : Type 0 where
  frame : (payload : Bytes) → Value M
  message : M → Value M
  other_value : Value M

-- The interface `grpc.Codec`; `unmarshal` gives the value that was filled.
pub record GrpcCodec (M : Type 0) : Type 0 where
  pub marshal : Value M → Outcome Bytes
  pub unmarshal : Bytes → Value M → Outcome (Value M)

-- `proto.Marshal`, and `proto.Unmarshal` into a message.
pub record ProtoLibrary (M : Type 0) : Type 0 where
  pub marshal : M → Outcome Bytes
  pub unmarshal : Bytes → M → Outcome M

module _ {M : Type 0} where
  abbrev pub as_message : Outcome M → Outcome (Value M)
  as_message (ok m) = ok (message m)
  as_message (err e) = err e
  as_message panic = panic

  abbrev pub proto_marshal : ProtoLibrary M → Value M → Outcome Bytes
  proto_marshal P (message m) = P.marshal m
  proto_marshal P (frame _) = err (other "failed to marshal")
  proto_marshal P other_value = err (other "failed to marshal")

  abbrev pub proto_unmarshal : ProtoLibrary M → Bytes → Value M → Outcome (Value M)
  proto_unmarshal P data_ (message m) = as_message (P.unmarshal data_ m)
  proto_unmarshal P data_ (frame _) = err (other "failed to unmarshal")
  proto_unmarshal P data_ other_value = err (other "failed to unmarshal")

  -- `protoCodec`
  abbrev pub proto_codec : ProtoLibrary M → GrpcCodec M
  proto_codec P = record { marshal = proto_marshal P; unmarshal = proto_unmarshal P }

  abbrev pub raw_marshal : GrpcCodec M → Value M → Outcome Bytes
  raw_marshal parent (frame payload) = ok payload
  raw_marshal parent (message m) = parent.marshal (message m)
  raw_marshal parent other_value = parent.marshal other_value

  abbrev pub raw_unmarshal : GrpcCodec M → Bytes → Value M → Outcome (Value M)
  raw_unmarshal parent data_ (frame _) = ok (frame data_)
  raw_unmarshal parent data_ (message m) = parent.unmarshal data_ (message m)
  raw_unmarshal parent data_ other_value = parent.unmarshal data_ other_value

  -- `rawCodec`, which `CodecWithParent` makes
  abbrev pub codec_with_parent : GrpcCodec M → GrpcCodec M
  codec_with_parent parent = record {
    marshal = raw_marshal parent;
    unmarshal = raw_unmarshal parent;
  }

  unfoldable pub codec : ProtoLibrary M → GrpcCodec M
  codec P = codec_with_parent (proto_codec P)
