-- ===== src/Init/Rules.antt =====
-- sentinel-init/cmd/main.go: buildTProxyRules and buildRedirectRules, text by text.
use sentinel_zero_trust.Common.{List, [], ◌∷◌, ◌++◌, Text, codes, text_eq, if◌then◌else◌}
use sentinel_zero_trust.Std.Strings.{split}
use sentinel_zero_trust.Init.Flags.{Flags, fmt_d, fmt_x}

-- `iptables -t T -A C -p tcp --dport PORT -j RETURN`
unfoldable pub inbound_return : Text → Text
inbound_return port =
    codes "iptables -t mangle -A SENTINEL_INBOUND -p tcp --dport " ++ (port ++ codes " -j RETURN")

unfoldable pub output_return : Text → Text
output_return port =
    codes "iptables -t nat -A SENTINEL_OUTPUT -p tcp --dport " ++ (port ++ codes " -j RETURN")

-- The loop over `strings.SplitSeq(*excludePorts, ",")`, which skips empty parts; `rules_of` is its
-- body.
unfoldable pub for_ports : (Text → List Text) → List Text → List Text
for_ports rules_of [] = []
for_ports rules_of (port ∷ ports) =
    (if text_eq port (codes "") then [] else rules_of port) ++ for_ports rules_of ports

unfoldable pub build_tproxy_rules : Flags → List Text
unfolding inbound_return output_return for_ports split fmt_d fmt_x
build_tproxy_rules f =
    codes "iptables -t mangle -N SENTINEL_INBOUND"
    ∷ codes "iptables -t nat -F"
    ∷ codes "iptables -t nat -N SENTINEL_OUTPUT"
    ∷ (codes "iptables -t nat -A SENTINEL_OUTPUT -m owner --uid-owner "
        ++ (fmt_d f.proxy_uid ++ codes " -j RETURN"))
    ∷ inbound_return (codes "443")
    ∷ inbound_return (codes "9090")
    ∷ output_return f.service_port
    ∷ output_return (codes "443")
    ∷ output_return (codes "9090")
    ∷ (for_ports (λ port. inbound_return port ∷ output_return port ∷ [])
          (split b',' f.exclude_ports)
        ++ (codes "iptables -t mangle -A PREROUTING -p tcp -j SENTINEL_INBOUND"
            ∷ codes
                "iptables -t mangle -A SENTINEL_INBOUND -m conntrack --ctstate ESTABLISHED,RELATED -j RETURN"
            ∷ (codes "iptables -t mangle -A SENTINEL_INBOUND -p tcp -j TPROXY --on-port "
                ++ (fmt_d f.inbound_port
                    ++ (codes " --on-ip 0.0.0.0 --tproxy-mark "
                        ++ (codes "0x" ++ (fmt_x f.proxy_mark ++ codes "/0xfff")))))
            ∷ codes
                "iptables -t nat -A SENTINEL_OUTPUT -m conntrack --ctstate ESTABLISHED,RELATED -j RETURN"
            ∷ codes "iptables -t nat -A OUTPUT -p tcp --dport 443 -j RETURN"
            ∷ codes "iptables -t nat -A OUTPUT -p tcp -j SENTINEL_OUTPUT"
            ∷ (codes "iptables -t nat -A SENTINEL_OUTPUT -p tcp -j REDIRECT --to-ports "
                ++ fmt_d f.outbound_port)
            ∷ []))

unfoldable pub build_redirect_rules : Flags → List Text
unfolding output_return for_ports split fmt_d
build_redirect_rules f =
    codes "iptables -t nat -F"
    ∷ codes "iptables -t nat -N SENTINEL_INBOUND"
    ∷ codes "iptables -t nat -N SENTINEL_REDIRECT"
    ∷ codes "iptables -t nat -N SENTINEL_OUTPUT"
    ∷ codes "iptables -t nat -N SENTINEL_IN_REDIRECT"
    ∷ output_return (codes "9090")
    ∷ (for_ports (λ port. output_return port ∷ []) (split b',' f.exclude_ports)
        ++ (codes "iptables -t nat -A PREROUTING -p tcp -j SENTINEL_INBOUND"
            ∷ codes "iptables -t nat -A OUTPUT -p tcp -j SENTINEL_OUTPUT"
            ∷ codes "iptables -t nat -A SENTINEL_INBOUND -p tcp -j SENTINEL_IN_REDIRECT"
            ∷ (codes "iptables -t nat -A SENTINEL_IN_REDIRECT -p tcp -j REDIRECT --to-ports "
                ++ fmt_d f.inbound_port)
            ∷ (codes "iptables -t nat -A SENTINEL_OUTPUT -m owner --uid-owner "
                ++ (fmt_d f.proxy_uid ++ codes " -j RETURN"))
            ∷ codes
                "iptables -t nat -A SENTINEL_OUTPUT -m conntrack --ctstate ESTABLISHED,RELATED -j RETURN"
            ∷ codes "iptables -t nat -A SENTINEL_OUTPUT -j SENTINEL_REDIRECT"
            ∷ (codes "iptables -t nat -A SENTINEL_REDIRECT -p tcp -j REDIRECT --to-ports "
                ++ fmt_d f.outbound_port)
            ∷ []))
