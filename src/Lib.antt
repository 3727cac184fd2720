-- ===== src/Lib.antt =====
-- The Azure SDK for C. Its core library (sdk/core/core) has spans of bytes, result codes, decimal
-- text, JSON, which is read by a pull parser, searched by JSON pointers and written by a builder,
-- HTTP requests and responses, a pipeline of policies that ends in a transport, a credential with
-- a token that it asks for by such a pipeline, and a log. The clients of Key Vault
-- (sdk/keyvault/keyvault) and of Blobs (sdk/storage/blobs) build requests and send them through
-- their pipeline.
--
-- Result (sdk/core/core/inc/az_result.h) has the result codes and the outcome of a call: an error
-- code or AZ_OK with the value of the out parameter, each with the state that the call leaves;
-- `fault` is an access to memory that is not there, `hang` is more rounds of a loop than the
-- model allows for. AZ_RETURN_IF_FAILED is the bind of this type.
--
-- Memory is the memory that spans point into, a byte at each address that may be accessed, with
-- memmove and memset. Span and its modules are sdk/core/core/inc/az_span.h, src/az_span_private.h
-- and src/az_span.c: Span/Read has the functions that only read, Span/Write those that write,
-- Span/Decimal the printing of integers, Span/Url the percent-encoding. Source stands for a span
-- argument that may be a string literal or a local array: its bytes are values, so that nothing
-- is said of where the compiler puts them.
--
-- Hex is src/az_hex_private.h. Double is the interface to floating point: the conversion by pow
-- of <math.h> and the comparisons of a double are parameters. Json/Text is src/az_json_string.c
-- and az_json_builder_write_span; Json/Token is src/az_json_token.c; Json/Stack, Json/Number,
-- Json/Parser and Json/Skip are src/az_json_parser.c; Json/Pointer and Json/Get are
-- src/az_json_pointer.c and src/az_json_get.c; Json/Builder is src/az_json_builder.c with
-- az_span_append_double.
--
-- Http/Request is src/az_http_request.c: a request stands with the memory of its URL and header
-- buffers. How the compiler lays out an az_pair in memory is a parameter, with what C says of it:
-- sizeof bytes, which determine the value.
--
-- Http/Response is src/az_http_response.c with the status codes of inc/az_http.h in
-- Http/StatusCode: a response is a state machine that tells what is read next. Http/Pipeline is
-- src/az_http_pipeline.c and src/az_http_policy.c: its World is the memory with the request, the
-- response, the log, the number of readings of the clock and the credential. A policy is a
-- function of the run of the policies behind it. The functions of transports, the clock and the
-- places of string literals and of buffers on the stack are parameters. Http/Retry is
-- src/az_http_private.h.
--
-- Log is src/az_log.c: the static variables and the calls of the listener are a state;
-- Log/RequestMessage and Log/ResponseMessage build the messages. Credentials is
-- inc/az_credentials.h, Credentials/Aad is src/az_aad.c and Credentials/ClientSecret is
-- src/az_credentials.c. Clients/Blobs and Clients/KeyVault are
-- sdk/storage/blobs/src/az_storage_blobs_blob_client.c and
-- sdk/keyvault/keyvault/src/az_keyvault_client.c.
--
-- Json/Progress has the lemmas on how much the readers take from their input, by which their
-- loops are shown to end.
--
-- A function that updates a span in place is a run on that span; one that writes memory is a run
-- on the memory, or on a Target, a span with its memory. Loops are recursions on the number of
-- rounds that are left. A loop over a reader is given the length of the reader, or one more, as
-- each round takes a byte; the loops of the decimal printers are given 20 rounds, as a uint64_t
-- has 20 digits at most. The loop over a header value, which does not test for the end of the
-- response, is given as many rounds as an int32_t counts; the loop of az_http_response_get_body
-- one more than the response has bytes, as a header takes a byte; and the loop over the headers
-- of a response in a log message 1025, as each round appends a byte at least to a buffer of 1024.
--
-- The fields of a span and the positions in it are natural numbers, as they are not negative in
-- the code; only the high index of a slice is signed. Null pointers for out parameters, for a
-- response in a log message and for the options of clients are not modelled. Negating the least
-- int64_t, which C leaves undefined, gives its absolute value here. Buffers on the stack stay as
-- they were left after the call that has them. Differences of clock readings do not overflow. Not
-- modelled: the transport, which calls libcurl; the clock, a call of the operating system; the
-- retry options, which no policy reads; and src/az_json_data.c and src/az_span_builder.c, whose
-- headers are not in the repository.
pub mod Base
pub mod Result
pub mod Memory
pub mod Span
pub mod Source
pub mod Hex
pub mod Double
pub mod Json
pub mod Http
pub mod Log
pub mod Credentials
pub mod Clients
mod Tests
