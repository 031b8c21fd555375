-- ===== src/Lib.antt =====
-- Verification library of the rate limiter.
--
-- The program limits requests in two places. In user space, nginx sends a feature vector of each
-- request over a Unix socket to the decision engine (decision-engine/), which takes a token from a
-- bucket in Redis, asks a sidecar (ml-sidecar/) for an anomaly score, decides between allow,
-- throttle and block, puts blocked addresses into a BPF map, and publishes its decisions to Kafka.
-- In the kernel, a TC program (ebpf/tc_blocker.c) drops the packets of the addresses in a BPF map,
-- which the loader (ebpf/loader/) fills through an HTTP API.
--
-- Which file models what:
--   Loader.Address, Loader.Handlers   ebpf/loader/main.go: ipToUint32, uint32ToIP, routeBlock,
--       routeBlockIP, handleAddBlock, handleRemoveBlock, handleListBlocks and the routes of main.
--       A handler is a function from the clock, the request and the map to the response and the map.
--   Loader.Startup   ebpf/loader/main.go: loadAndAttach, ensureClsactQdisc. The kernel is the state of
--       the library and the map that the attached program looks up in.
--   Loader.Service   ebpf/loader/main.go: main with getEnv, and the API over any sequence of requests.
--   Loader.Handles   ebpf/loader/main.go: the handles of main, loadAndAttach and ensureClsactQdisc.
--   Blocker     ebpf/tc_blocker.c: tc_ingress_blocker over the bytes of a frame.
--   Blocklist   decision-engine/cmd/ebpf/blocklist.go: New, Add, Remove, Close, handleBlock,
--       handleUnblock, ipToKey. The no-op mode is the missing map.
--   Redis       decision-engine/internal/redis/client.go: New, tokenBucketScript and
--       Decrement, which makes up to four attempts: a go-redis cluster client sends a command again
--       after an error of the network, three times unless MaxRedirects is set.
--       Redis.Bucket is the abstract bucket, the specification of the script.
--   Config      decision-engine/internal/config/config.go: Load, getEnv, getEnvInt64, getEnvFloat,
--       splitCSV.
--   Ml          decision-engine/internal/ml/client.go: New and Score, with the messages of
--       decision-engine/proto/scorer.pb.go. Following a nil client is the outcome `panics`.
--   Kafka       decision-engine/internal/kafka/producer.go: New, PublishDecision, PublishBlocked, Close.
--   Engine.Interface, Engine.Evaluate   decision-engine/internal/engine/engine.go: Evaluate, whose
--       goroutines are a list of tasks in the world that it passes on; engine_testing.go: its twin.
--   Server.Respond, Server.Connection   decision-engine/cmd/server/main.go: handleConn, writeResponse.
--   Serving.System, Serving.Steps   decision-engine/cmd/server/main.go: runUnixSocket with all its
--       connections, the calls of Evaluate in them, and the goroutines that publish; and runHTTP with the
--       requests that it has accepted. A step is one access to what the goroutines share (each attempt of
--       Decrement is one), or the answer
--       to one HTTP request, and the steps of different goroutines interleave. Labels name the script
--       runs, since the Redis server is what the limit rests on.
--   Server.Http   decision-engine/cmd/server/main.go: runHTTP, with RegisterRoutes of blocklist.go.
--   Lifecycle   decision-engine/cmd/server/main.go: main, which loads the configuration, opens the
--       services, builds the engine, starts both servers, waits for the signal and closes.
--   Nginx       nginx/lua/fingerprint.lua: build_vector, query_engine and evaluate, at the other end of
--       the socket.
--   Nginx.Counters   nginx/lua/counter.lua and nginx/lua/access.lua.
--   Sidecar.Forest   ml-sidecar/models/isolation_forest.py: the forest of a client, its fit and its score;
--       redis/lua-scripts/get_set_model.lua: the script for stored models, which nothing loads.
--   Sidecar.Sequence   ml-sidecar/models/lstm_model.py: the last requests of a subnet and their score.
--   Sidecar.Scorer   ml-sidecar/scorer.py, and Score of ml-sidecar/server.py: the combined score.
--   Sidecar.Dicts   the dictionaries of ml-sidecar/: JSON values, _fv_to_dict of server.py, and
--       _encode_feature_vector of models/isolation_forest.py.
--   Sidecar.Retrain   ml-sidecar/training/retrain.py: the nightly job.
--   Window      redis/lua-scripts/token_bucket.lua, the sliding-window script that the engine, which
--       embeds its own script, does not load.
-- The other modules of these components prove. Base has the helpers that they share: native
-- numbers, lists, byte texts, results, and integers with the wrap-around of int64. Net, Float, Text
-- and Server.Lines define what the code uses of Go's standard library: net.ParseIP, To4, String and
-- byte order; the rounding of float32 and float64 (Float.Double: the arithmetic of the sidecar);
-- strings and strconv; bufio.Scanner. Tests has concrete maps and servers that fill the interfaces,
-- and runs of the code.
--
-- Parameters: the BPF map with the cilium/ebpf library (Bpf.BpfMap and its laws; for the start,
-- Loader.Startup.EbpfLibrary), the answers of netlink, the commands of the Redis server
-- (Redis.Server and Window.Sets with their laws), the writer of kafka-go, the router of gin, what
-- the services answer at the start, nginx's socket and shared dictionary (Nginx.Counters, with its
-- laws), what the sidecar runs on (Sidecar.Runtime with its laws: its Redis server, scikit-learn,
-- joblib, the ONNX session and the JSON library; Sidecar.Retrain.Job for the nightly job), cjson,
-- ngx.md5 and tonumber, the JSON decoders and encoders, strconv.ParseFloat, the environment, the
-- clocks, the fate of each network message, and what a conversion of a number out of range to int
-- gives.
--
-- Bounds: a number of up to 2200 binary digits is rounded, which the largest finite float64 counted
-- in its smallest unit (2098 digits) stays below, also when it is multiplied by 2 and by 60. The
-- product of a weight of the sidecar and a score up to 1, counted in the square of that unit, has
-- at most 2148 digits. The decimal digits of a number have one step of fuel more than the number.
-- Lua's numbers are doubles: the model of the script is exact for bucket sizes up to 2 ^ 53. All
-- commands of one script run see the same second. The result on the rate limit is about lifetimes
-- of whole seconds. The routes of the loader are modelled for clean paths.
--
-- A run of the socket server has no fuel: it is a sequence of steps of any length.
--
-- Not modelled: the loader's flags and signals, the time that the shutdown of the HTTP server
-- waits, which is in the library, the loading of the sidecar's models from disk, the training of a
-- forest, a Redis server of the sidecar that does not answer, log lines, deadlines beyond lost
-- writes and dropped lines, generated gRPC code, the metrics of nginx, the XDP placeholder, and the
-- set-up of the database, messaging and observability.
pub mod Base
pub mod Net
pub mod Bpf
pub mod Blocker
pub mod Loader
pub mod Blocklist
pub mod Redis
pub mod Float
pub mod Text
pub mod Config
pub mod Ml
pub mod Kafka
pub mod Engine
pub mod Server
pub mod Sidecar
pub mod Serving
pub mod Lifecycle
pub mod Window
pub mod Nginx
pub mod Tests
