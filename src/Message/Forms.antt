-- ===== src/Message/Forms.antt =====
-- The messages of the protocol, written out field by field, for the statements about what goes out.
use cache_system_of_lease_me.Base.{ℕ, none, some}
use cache_system_of_lease_me.Message.{CacheDataType, CacheMessageHeader, CacheMessage}

-- A response: the header of the request but for the type, and a body.
abbrev pub response_form : ℕ → CacheMessageHeader → ℕ → ℕ → ℕ → CacheDataType → CacheMessage
response_form type h result expire cache_id cache_data = record {
  header = some (record { magic = h.magic; version = h.version; type = type; op_id = h.op_id });
  read_request = none;
  update_request = none;
  op_response = some (record {
    result = result;
    timestamp = 0;
    expire = expire;
    cache_id = cache_id;
    cache_data = cache_data;
  });
}

-- A header that a client makes.
abbrev pub header_form : ℕ → ℕ → CacheMessageHeader
header_form type op_id = record { magic = 0x34EC27D9; version = 1; type = type; op_id = op_id }

abbrev pub read_form : ℕ → ℕ → ℕ → ℕ → CacheMessage
read_form op_id cache_id timestamp expire = record {
  header = some (header_form 0x1001 op_id);
  read_request = some (record { timestamp = timestamp; expire = expire; cache_id = cache_id });
  update_request = none;
  op_response = none;
}

abbrev pub update_form : ℕ → ℕ → CacheDataType → ℕ → ℕ → CacheMessage
update_form op_id cache_id cache_data timestamp expire = record {
  header = some (header_form 0x1003 op_id);
  read_request = none;
  update_request = some (record {
    timestamp = timestamp;
    expire = expire;
    cache_id = cache_id;
    cache_data = cache_data;
  });
  op_response = none;
}

abbrev pub ack_form : ℕ → CacheMessage
ack_form op_id = record {
  header = some (header_form 0x1005 op_id);
  read_request = none;
  update_request = none;
  op_response = none;
}

-- A message without any part, and one that has only a header, of default values.
abbrev pub empty_form : CacheMessage
empty_form = record {
  header = none;
  read_request = none;
  update_request = none;
  op_response = none;
}

abbrev pub bare_form : CacheMessage
bare_form = record {
  header = some (record { magic = 0; version = 0; type = 0; op_id = 0 });
  read_request = none;
  update_request = none;
  op_response = none;
}
