-- ===== src/Http1/Api/Exceptions.antt =====
-- `handleParsingException` and `handleOperationException` as each class of src/api-server/api defines
-- them; no class of src/api-server/impl overrides them.
use oai_cn5g_nssf.Http1.Operations.{Translators}
use oai_cn5g_nssf.Http1.Api.{handle_parsing_exception, handle_operation_exception}

abbrev pub nf_instance_id_document : Translators
nf_instance_id_document = record {
  handle_parsing_exception = handle_parsing_exception;
  handle_operation_exception = handle_operation_exception;
}

abbrev pub subscription_id_document : Translators
subscription_id_document = record {
  handle_parsing_exception = handle_parsing_exception;
  handle_operation_exception = handle_operation_exception;
}

abbrev pub subscriptions_collection : Translators
subscriptions_collection = record {
  handle_parsing_exception = handle_parsing_exception;
  handle_operation_exception = handle_operation_exception;
}

abbrev pub nssai_availability_store : Translators
nssai_availability_store = record {
  handle_parsing_exception = handle_parsing_exception;
  handle_operation_exception = handle_operation_exception;
}

abbrev pub network_slice_information_document : Translators
network_slice_information_document = record {
  handle_parsing_exception = handle_parsing_exception;
  handle_operation_exception = handle_operation_exception;
}

abbrev pub nssf_slice_config : Translators
nssf_slice_config = record {
  handle_parsing_exception = handle_parsing_exception;
  handle_operation_exception = handle_operation_exception;
}
