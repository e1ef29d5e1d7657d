-- ===== src/Frames/Runs.antt =====
-- Runs of the frame codec on concrete frames.
use grpc_bridge.Prelude.{
  ◌≡◌, true, false, none, some, List, [], ◌∷◌, ◌++◌, ◌≤◌, map, All, length, inl, refl, arith,
}
use grpc_bridge.Errors.{ok, ◌>>=◌}
use grpc_bridge.Frames.Types.{no_settings, Frame, data_frame, headers_frame, settings_frame}
use grpc_bridge.Frames.Encode.{encode_body, encode_headers, flag_value}
use grpc_bridge.Frames.Encode.Payload.{settings_payload, prioritized_payload}
use grpc_bridge.Frames.Decoder.{frame_decoder, push}
use grpc_bridge.Frames.Decoder.Chunks.{push-append}
use grpc_bridge.Frames.RoundTrip.Payload.{Fits, received}
use grpc_bridge.Frames.RoundTrip.Wire.{Sendable, wire, push-wire}

abbrev headers : Frame
headers = headers_frame (record {
  stream_id = 3;
  header_block_fragment = 0x82 ∷ 0x87 ∷ [];
  end_stream = false;
  end_headers = true;
  priority = some (record { stream_dependency = 1; weight = 256; exclusive = true });
})

abbrev first_settings : Frame
first_settings = settings_frame (record {
  ack = false;
  settings = record no_settings { initial_window_size = some 65535; enable_push = some false };
})

abbrev data_end : Frame
data_end =
    data_frame (record {
      stream_id = 3;
      bytes = 1 ∷ 2 ∷ [];
      flow_controlled_length = none;
      end_stream = true;
    })

headers-Fits : Fits headers
headers-Fits =
    (omega arith, record { dependency = omega arith; light = omega arith; heavy = omega arith })

settings-Fits : Fits first_settings
settings-Fits = (
  record {
    header_table_size = tt;
    max_concurrent_streams = tt;
    initial_window_size = omega arith;
    max_frame_size = tt;
    max_header_list_size = tt;
  },
  inl refl,
)

abbrev sent : List Frame
sent = first_settings ∷ headers ∷ data_end ∷ []

settings_short : length (encode_body first_settings).payload ≤ 16384
unfolding encode_body flag_value
settings_short =
    rw
      (settings_payload
        (record no_settings { initial_window_size = some 65535; enable_push = some false }))
      (omega arith)

headers_short : length (encode_body headers).payload ≤ 16384
unfolding encode_body encode_headers
headers_short =
    rw
      (prioritized_payload (record { stream_dependency = 1; weight = 256; exclusive = true })
        (0x82 ∷ 0x87 ∷ []))
      (omega arith)

sent-Sendable : All (Sendable 16384) sent
unfolding encode_body
sent-Sendable = (
  (settings-Fits, settings_short),
  ((headers-Fits, headers_short), ((omega arith, omega arith), tt)),
)

push-wire_example :
    push (frame_decoder 16384) (wire sent) ≡ ok (map received sent, frame_decoder 16384)
push-wire_example = push-wire 16384 sent (omega arith) sent-Sendable

push-append_example :
    push (frame_decoder 16384) ((0 ∷ 0 ∷ 0 ∷ 4 ∷ []) ++ (1 ∷ 0 ∷ 0 ∷ 0 ∷ 0 ∷ 0 ∷ [])) ≡ (do
      (frames, d1) ← push (frame_decoder 16384) (0 ∷ 0 ∷ 0 ∷ 4 ∷ [])
      (more, d2) ← push d1 (1 ∷ 0 ∷ 0 ∷ 0 ∷ 0 ∷ 0 ∷ [])
      ok (frames ++ more, d2))
push-append_example =
    push-append (frame_decoder 16384) (0 ∷ 0 ∷ 0 ∷ 4 ∷ []) (1 ∷ 0 ∷ 0 ∷ 0 ∷ 0 ∷ 0 ∷ [])
