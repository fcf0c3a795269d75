-- ===== src/Server/Status.antt =====
-- The status codes of a reply, BiliUserSpiderServer/src/status/status_code.h and .cpp.
use bili_user_spider.Prelude.{ℕ, String}

pub data StatusCode : Type 0 where
  no_error general_error server_stopped client_disconnect missing_param : StatusCode
  invalid_param wrong_password no_task_avail : StatusCode

-- The value of the C++ enumerator.
unfoldable pub code : StatusCode → ℕ
code no_error = 0
code general_error = 1
code server_stopped = 2
code client_disconnect = 3
code missing_param = 4
code invalid_param = 5
code wrong_password = 6
code no_task_avail = 7

unfoldable pub get_err_msg : StatusCode → String
get_err_msg no_error = "OK"
get_err_msg server_stopped = "Server stopped"
get_err_msg client_disconnect = "Client was disconnected"
get_err_msg missing_param = "Missing param"
get_err_msg invalid_param = "Invalid param"
get_err_msg wrong_password = "Wrong password"
get_err_msg no_task_avail = "No task to assign"
get_err_msg general_error = "Error"
