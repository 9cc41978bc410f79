-- ===== src/Gateway/Texts.antt =====
-- The texts that runtimego/grpc/gateway_client.go gives its errors.
use Prim.Native.String.{String, ◌++◌}

-- fmt.Sprintf("写入响应失败: %v", err)
unfoldable pub write_failure_text : String → String
write_failure_text text = "写入响应失败: " ++ text
