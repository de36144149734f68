-- ===== src/HttpStatus/Codes.antt =====
-- src/http_status_gen.c: the array `codes`.
use molerat.Base.{ℕ, List, [], ◌∷◌}
use Prim.Native.Char.{code}
use Prim.Native.String.{String}
use molerat.HttpStatus.{Status}

-- The bytes of a message, which is ASCII.
abbrev bytes_of : String → List ℕ
bytes_of String.[] = []
bytes_of (String.◌∷◌ c s) = code c ∷ bytes_of s

abbrev status : ℕ → String → Status
status number message = record { code = number; message = bytes_of message }

abbrev pub codes : List Status
codes =
    status 100 "Continue"
    ∷ status 101 "Switching Protocols"
    ∷ status 102 "Processing"
    ∷ status 200 "OK"
    ∷ status 201 "Created"
    ∷ status 202 "Accepted"
    ∷ status 203 "Non-Authoritative Information"
    ∷ status 204 "No Content"
    ∷ status 205 "Reset Content"
    ∷ status 206 "Partial Content"
    ∷ status 207 "Multi-Status"
    ∷ status 208 "Already Reported"
    ∷ status 226 "IM Used"
    ∷ status 300 "Multiple Choices"
    ∷ status 301 "Moved Permanently"
    ∷ status 302 "Found"
    ∷ status 303 "See Other"
    ∷ status 304 "Not Modified"
    ∷ status 305 "Use Proxy"
    ∷ status 306 "Switch Proxy"
    ∷ status 307 "Temporary Redirect"
    ∷ status 308 "Permanent Redirect"
    ∷ status 400 "Bad Request"
    ∷ status 401 "Unauthorized"
    ∷ status 402 "Payment Required"
    ∷ status 403 "Forbidden"
    ∷ status 404 "Not Found"
    ∷ status 405 "Method Not Allowed"
    ∷ status 406 "Not Acceptable"
    ∷ status 407 "Proxy Authentication Required"
    ∷ status 408 "Request Timeout"
    ∷ status 409 "Conflict"
    ∷ status 410 "Gone"
    ∷ status 411 "Length Required"
    ∷ status 412 "Precondition Failed"
    ∷ status 413 "Request Entity Too Large"
    ∷ status 414 "Request-URI Too Long"
    ∷ status 415 "Unsupported Media Type"
    ∷ status 416 "Requested Range Not Satisfiable"
    ∷ status 417 "Expectation Failed"
    ∷ status 418 "I'm a teapot"
    ∷ status 419 "Authentication Timeout"
    ∷ status 422 "Unprocessable Entity"
    ∷ status 423 "Locked"
    ∷ status 424 "Failed Dependency"
    ∷ status 425 "Unordered Collection"
    ∷ status 426 "Upgrade Required"
    ∷ status 428 "Precondition Required"
    ∷ status 429 "Too Many Requests"
    ∷ status 431 "Request Header Fields Too Large"
    ∷ status 451 "Unavailable For Legal Reasons"
    ∷ status 500 "Internal Server Error"
    ∷ status 501 "Not Implemented"
    ∷ status 502 "Bad Gateway"
    ∷ status 503 "Service Unavailable"
    ∷ status 504 "Gateway Timeout"
    ∷ status 505 "HTTP Version Not Supported"
    ∷ status 506 "Variant Also Negotiates"
    ∷ status 507 "Insufficient Storage"
    ∷ status 508 "Loop Detected"
    ∷ status 509 "Bandwidth Limit Exceeded"
    ∷ status 510 "Not Extended"
    ∷ status 511 "Network Authentication Required"
    ∷ status 522 "Connection timed out"
    ∷ []
