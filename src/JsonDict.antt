-- ===== src/JsonDict.antt =====
-- caikit/core/data_model/json_dict.py
pub mod Convert
pub mod RoundTrip
